-- ===== src/Util/Lines/Laws.antt =====
-- The lines do not depend on how the text is cut into chunks.
use Prim.Native.Char.{Char}
use mathlib.Core.List.{◌++◌, append_assoc, append-nil}
use ntfy.Base.{
  ◌≡◌, refl, ◌∙◌, ap, sym, false, List, [], ◌∷◌, map, All, All-append, if◌then◌else◌, Bool-cases,
  inl, inr,
}
use ntfy.Util.Lines.{Text, is_break, scan, last_line, lines_from, fetch_lines}

-- The lines of a whole text: each line break ends one, and what follows the last one is a line if it
-- is not empty.
abbrev pub before_first : Char → List Text → List Text
before_first c [] = (c ∷ []) ∷ []
before_first c (line ∷ lines) = (c ∷ line) ∷ lines

pub lines_of : Text → List Text
lines_of [] = []
lines_of (c ∷ s) = let rest = lines_of s in if is_break c then [] ∷ rest else before_first c rest

abbrev finish : List Text × Text → List Text
finish r = r.0 ++ last_line r.1

-- `line` before the first line of what follows.
continue_line : Text → List Text → List Text
continue_line [] lines = lines
continue_line (c ∷ line) lines = before_first c (continue_line line lines)

continue_line-snoc :
    (line : Text) (c : Char) (lines : List Text)
    → continue_line (line ++ c ∷ []) lines ≡ continue_line line (before_first c lines)
unfolding continue_line
continue_line-snoc [] c lines = refl
continue_line-snoc (d ∷ line) c lines = ap (before_first d) (continue_line-snoc line c lines)

continue_line-nil : (line : Text) → continue_line line [] ≡ last_line line
unfolding continue_line
continue_line-nil [] = refl
continue_line-nil (c ∷ line) = rw (continue_line-nil line) (single line)
  where
    single : (line : Text) → before_first c (last_line line) ≡ (c ∷ line) ∷ []
    single [] = refl
    single (d ∷ line) = refl

continue_line-break :
    (line : Text) (lines : List Text) → continue_line line ([] ∷ lines) ≡ line ∷ lines
unfolding continue_line
continue_line-break [] lines = refl
continue_line-break (c ∷ line) lines = rw (continue_line-break line lines) refl

finish-scan : (line s : Text) → finish (scan line s) ≡ continue_line line (lines_of s)
unfolding scan lines_of
finish-scan line [] = sym (continue_line-nil line)
finish-scan line (c ∷ s) = elim (Bool-cases (is_break c)) [
  | inl e ↦
      rw (e, continue_line-break line (lines_of s))
        (ap (line ∷◌) (finish-scan [] s ∙ (unfold continue_line in refl)))
  | inr e ↦ rw e (finish-scan (line ++ c ∷ []) s ∙ continue_line-snoc line c (lines_of s))
]

abbrev HasNoBreak : Text → Type 0
HasNoBreak s = All (λ c. is_break c ≡ false) s

HasNoBreak-snoc :
    (line : Text) (c : Char) → HasNoBreak line → is_break c ≡ false → HasNoBreak (line ++ c ∷ [])
HasNoBreak-snoc line c h e = All-append _ line (c ∷ []) h (e, tt)

HasNoBreak-scan : (line s : Text) → HasNoBreak line → HasNoBreak (scan line s).1
unfolding scan
HasNoBreak-scan line [] h = h
HasNoBreak-scan line (c ∷ s) h = elim (Bool-cases (is_break c)) [
  | inl e ↦ rw e (HasNoBreak-scan [] s tt)
  | inr e ↦ rw e (HasNoBreak-scan (line ++ c ∷ []) s (HasNoBreak-snoc line c h e))
]

scan_no_break : (line r t : Text) → HasNoBreak r → scan line (r ++ t) ≡ scan (line ++ r) t
unfolding scan
scan_no_break line [] t h = rw append-nil refl
scan_no_break line (c ∷ r) t (e, h) =
    rw e (scan_no_break (line ++ c ∷ []) r t h ∙ ap (λ l. scan l t) (append_assoc line (c ∷ []) r))

-- What a later text adds to a scan.
abbrev resume : Text → List Text × Text → List Text × Text
resume t r = (r.0 ++ (scan r.1 t).0, (scan r.1 t).1)

scan-append : (line s t : Text) → scan line (s ++ t) ≡ resume t (scan line s)
unfolding scan
scan-append line [] t = refl
scan-append line (c ∷ s) t = elim (Bool-cases (is_break c)) [
  | inl e ↦ rw (e, scan-append [] s t) refl
  | inr e ↦ rw (e, scan-append (line ++ c ∷ []) s t) refl
]

abbrev pub joined : List Text → Text
joined [] = []
joined (chunk ∷ chunks) = chunk ++ joined chunks

lines_from-eq :
    (r : Text) (chunks : List Text)
    → HasNoBreak r
    → lines_from r chunks ≡ finish (scan r (joined chunks))
unfolding lines_from
lines_from-eq r [] h = ap finish (ap (scan []) (sym (append-nil r)) ∙ scan_no_break [] r [] h)
lines_from-eq r (chunk ∷ chunks) h =
    let first : scan [] (r ++ chunk) ≡ scan r chunk = scan_no_break [] r chunk h in
    rw
      (
        first,
        lines_from-eq (scan r chunk).1 chunks (HasNoBreak-scan r chunk h),
        scan-append r chunk (joined chunks),
      )
      (sym (append_assoc (scan r chunk).0 _ _))

-- However the body is cut into chunks, the lines are those of all decoded chunks joined: each line
-- break ends a line, and what follows the last one is a line if it is not empty.
pub fetch_lines-eq-lines_of :
    {Value : Type 0} (decode : Value → Text) (values : List Value)
    → fetch_lines decode values ≡ lines_of (joined (map decode values))
unfolding fetch_lines
fetch_lines-eq-lines_of decode values =
    lines_from-eq [] (map decode values) tt
    ∙ finish-scan [] (joined (map decode values))
    ∙ (unfold continue_line in refl)

lines_of-crlf : (s t : Text) → HasNoBreak s → lines_of (s ++ "\r" ∷ "\n" ∷ t) ≡ s ∷ [] ∷ lines_of t
unfolding lines_of
lines_of-crlf [] t h = refl
lines_of-crlf (c ∷ s) t (e, h) = rw (e, lines_of-crlf s t h) refl

-- A carriage return with a line feed gives an empty line besides the one that it ends.
pub fetch_lines-crlf :
    {Value : Type 0} (decode : Value → Text) (value : Value) (s t : Text)
    → decode value ≡ s ++ "\r" ∷ "\n" ∷ t
    → All (λ c. is_break c ≡ false) s
    → fetch_lines decode (value ∷ []) ≡ s ∷ [] ∷ lines_of t
fetch_lines-crlf decode value s t e h =
    fetch_lines-eq-lines_of decode (value ∷ [])
    ∙ ap lines_of (append-nil (decode value) ∙ e)
    ∙ lines_of-crlf s t h
