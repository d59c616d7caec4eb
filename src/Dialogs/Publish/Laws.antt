-- ===== src/Dialogs/Publish/Laws.antt =====
-- What the server reads from the parameters, and which files the dialog holds back.
use ntfy.Base.{
  ℕ, ◌≤◌, String, ◌≡◌, refl, ◌∙◌, Bool, not, ◌&&◌, Option, none, some, [], ◌∷◌, ◌++◌, ◌⊎◌, ◌↔◌, eqb,
  truthy, ◌==◌, if◌then◌else◌, arith,
}
use ntfy.Base.Decimal.{to_string}
use ntfy.Base.Dict.{Object, property}
use ntfy.Base.Text.{replace_all}
use ntfy.Base.Trim.{trim}
use ntfy.Dialogs.Publish.{
  File, Draft, param, priority_param, message_param, markdown_param, search_params, limit_error,
}

abbrev pub or_else {ℓ} : {A : Type ℓ} → Option A → Option A → Option A
or_else none other = other
or_else (some a) other = some a

property-append :
    (xs ys : Object String) (name : String)
    → property (xs ++ ys) name ≡ or_else (property xs name) (property ys name)
unfolding property
property-append [] ys name = refl
property-append (x ∷ xs) ys name = ground (arith, property-append xs ys name)

property-param :
    (key value name : String)
    → property (param key value) name ≡ (if key == name then truthy (some value) else none)
unfolding property
property-param key value name = ground arith

-- What each parameter should say.
abbrev pub text_value : String → Option String
text_value s = truthy (some (trim s))

abbrev pub priority_value : ℕ → Option String
priority_value n = if not (eqb n 0) && not (eqb n 3) then some (to_string n) else none

abbrev pub message_value : Option File → String → Option String
message_value none message = none
message_value (some f) message =
    if trim message == "" then none else some (trim (replace_all "\n" "\\n" message))

abbrev pub markdown_value : Bool → Option String
markdown_value enabled = if enabled then some "true" else none

abbrev at : String → String → Option String → Option String
at key name value = if key == name then value else none

property-priority :
    (n : ℕ) (name : String)
    → property (priority_param n) name ≡ at "priority" name (priority_value n)
unfolding property
property-priority n name = ground arith

property-message :
    (f : Option File) (message name : String)
    → property (message_param f message) name ≡ at "message" name (message_value f message)
unfolding property
property-message none message name = ground arith
property-message (some f) message name = ground arith

property-markdown :
    (enabled : Bool) (name : String)
    → property (markdown_param enabled) name ≡ at "markdown" name (markdown_value enabled)
unfolding property
property-markdown enabled name = ground arith

or_else-none {ℓ} : {A : Type ℓ} (o : Option A) → or_else o none ≡ o
or_else-none none = refl
or_else-none (some a) = refl

next :
    (xs ys : Object String) (name : String) {a b : Option String}
    → property xs name ≡ a
    → property ys name ≡ b
    → property (xs ++ ys) name ≡ or_else a b
next xs ys name e e' = rw (property-append xs ys name, e, e') refl

module _ (m : Draft) where
  read :
      (name : String)
      → property (search_params m) name
        ≡ or_else (at "title" name (text_value m.title)) (
            or_else (at "tags" name (text_value m.tags)) (
              or_else (at "priority" name (priority_value m.priority)) (
                or_else (at "click" name (text_value m.click_url)) (
                  or_else (at "attach" name (text_value m.attach_url)) (
                    or_else (at "filename" name (text_value m.filename)) (
                      or_else (at "email" name (text_value m.email)) (
                        or_else (at "call" name (text_value m.call)) (
                          or_else (at "delay" name (text_value m.delay)) (
                            or_else
                              (at "message" name (message_value m.attach_file m.message))
                              (at "markdown" name (markdown_value m.markdown_enabled)))))))))))
  unfolding search_params
  read name = next _ _ name (property-param "title" (trim m.title) name) (
      next _ _ name (property-param "tags" (trim m.tags) name) (
        next _ _ name (property-priority m.priority name) (
          next _ _ name (property-param "click" (trim m.click_url) name) (
            next _ _ name (property-param "attach" (trim m.attach_url) name) (
              next _ _ name (property-param "filename" (trim m.filename) name) (
                next _ _ name (property-param "email" (trim m.email) name) (
                  next _ _ name (property-param "call" (trim m.call) name) (
                    next _ _ name (property-param "delay" (trim m.delay) name) (
                      next _ _ name (property-message m.attach_file m.message name)
                        ((property-markdown m.markdown_enabled name)))))))))))

  -- Read back from the parameters, each field is the text of the dialog without the white space around
  -- it, and is left out where that is empty; the priority is left out where it is the default 3 or 0;
  -- the message is there only beside a file, on one line.
  pub property-search_params :
      (property (search_params m) "title" ≡ text_value m.title)
      × (property (search_params m) "tags" ≡ text_value m.tags)
      × (property (search_params m) "priority" ≡ priority_value m.priority)
      × (property (search_params m) "click" ≡ text_value m.click_url)
      × (property (search_params m) "attach" ≡ text_value m.attach_url)
      × (property (search_params m) "filename" ≡ text_value m.filename)
      × (property (search_params m) "email" ≡ text_value m.email)
      × (property (search_params m) "call" ≡ text_value m.call)
      × (property (search_params m) "delay" ≡ text_value m.delay)
      × (property (search_params m) "message" ≡ message_value m.attach_file m.message)
      × (property (search_params m) "markdown" ≡ markdown_value m.markdown_enabled)
  property-search_params = (
    read "title" ∙ or_else-none (text_value m.title),
    read "tags" ∙ or_else-none (text_value m.tags),
    read "priority" ∙ or_else-none (priority_value m.priority),
    read "click" ∙ or_else-none (text_value m.click_url),
    read "attach" ∙ or_else-none (text_value m.attach_url),
    read "filename" ∙ or_else-none (text_value m.filename),
    read "email" ∙ or_else-none (text_value m.email),
    read "call" ∙ or_else-none (text_value m.call),
    read "delay" ∙ or_else-none (text_value m.delay),
    read "message" ∙ or_else-none (message_value m.attach_file m.message),
    read "markdown",
  )

-- A file is not held back exactly if it is within the limit for one file and within what is left of the
-- quota; but 0 counts as no limit, also where nothing is left of the quota.
pub limit_error_lem :
    (limit remaining size : ℕ)
    → (limit_error limit remaining size ≡ none)
      ↔ (((limit ≡ 0) ⊎ (size ≤ limit)) × ((remaining ≡ 0) ⊎ (size ≤ remaining)))
unfolding limit_error
limit_error_lem limit remaining size = (λ h. ground arith, λ h. ground arith)
