-- ===== src/Util/Topic/Laws.antt =====
-- A subscription's id tells its server and its topic.
use Prim.Native.String.{[], ◌∷◌, ◌++◌}
use text.Mathlib.TextLemmas.{head-eq_of_cons-eq, tail-eq_of_cons-eq, cons-ne-nil}
use Prim.Native.Char.{code}
use ntfy.Base.{Bool, not, ◌&&◌, eqb, String, ◌≡◌, refl, sym, ◌∙◌, ap, subst, true, arith}
use ntfy.Base.Text.{prepend, append-eq-prepend}
use ntfy.Model.{Config}
use ntfy.Util.Url.{topic_url}
use ntfy.Util.Topic.{all_topic_chars, valid_topic}

abbrev pub slash_free : String → Bool
slash_free [] = true
slash_free (c ∷ s) = not (eqb (code c) b'/') && slash_free s

topic_chars-slash_free : (t : String) → all_topic_chars t ≡ true → slash_free t ≡ true
topic_chars-slash_free [] h = refl
topic_chars-slash_free (c ∷ t) h = ground (arith, topic_chars-slash_free t)

-- A slash before the topic cannot lie inside another one.
pub no_slash_inside : (b t t' : String) → slash_free t ≡ true → t ≡ prepend b ("/" ∷ t') → ⊥
no_slash_inside [] t t' h e =
    let h' : slash_free ("/" ∷ t') ≡ true = subst (λ s. slash_free s ≡ true) e h in cc
no_slash_inside (c ∷ b) [] t' h e = cons-ne-nil c (prepend b ("/" ∷ t')) (sym e)
no_slash_inside (c ∷ b) (d ∷ t) t' h e =
    no_slash_inside b t t' (ground arith) (tail-eq_of_cons-eq e)

pub split_unique :
    (b b' t t' : String)
    → slash_free t ≡ true
    → slash_free t' ≡ true
    → prepend b ("/" ∷ t) ≡ prepend b' ("/" ∷ t')
    → (b ≡ b') × (t ≡ t')
split_unique [] [] t t' h h' e = (refl, tail-eq_of_cons-eq e)
split_unique [] (c ∷ b') t t' h h' e = absurd (no_slash_inside b' t t' h (tail-eq_of_cons-eq e))
split_unique (c ∷ b) [] t t' h h' e =
    absurd (no_slash_inside b t' t h' (tail-eq_of_cons-eq (sym e)))
split_unique (c ∷ b) (c' ∷ b') t t' h h' e =
    let (p, q) = split_unique b b' t t' h h' (tail-eq_of_cons-eq e) in
    (cc (head-eq_of_cons-eq e), q)

pub topic_url-prepend : (b t : String) → topic_url b t ≡ prepend b ("/" ∷ t)
unfolding topic_url
topic_url-prepend b t = append-eq-prepend b ("/" ++ t) ∙ ap (prepend b) (append-eq-prepend "/" t)

pub valid_topic-slash_free :
    (config : Config) (t : String) → valid_topic config t ≡ true → slash_free t ≡ true
unfolding valid_topic
valid_topic-slash_free config t h = topic_chars-slash_free t (ground arith)

-- Where both topics are valid, two subscriptions have the same id only if they have the same server
-- and the same topic.
pub topic_url_injective :
    (config : Config) (b b' t t' : String)
    → valid_topic config t ≡ true
    → valid_topic config t' ≡ true
    → topic_url b t ≡ topic_url b' t'
    → (b ≡ b') × (t ≡ t')
topic_url_injective config b b' t t' h h' e =
    split_unique b b' t t' (valid_topic-slash_free config t h) (valid_topic-slash_free config t' h')
      (sym (topic_url-prepend b t) ∙ e ∙ topic_url-prepend b' t')
