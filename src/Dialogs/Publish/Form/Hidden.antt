-- ===== src/Dialogs/Publish/Form/Hidden.antt =====
-- What is hidden in the dialog is not sent, but for a file.
use ntfy.Base.{ℕ, String, ◌≡◌, refl, ap, ◌∙◌, true, false, Option, none, is_some, arith}
use ntfy.Dialogs.Publish.Laws.{text_value, property-search_params}
use ntfy.Dialogs.Publish.{Draft, search_params, File, LimitError, handle_emoji_pick}
use ntfy.Base.Dict.{property}
use ntfy.Base.Trim.{trim, trim_start, trim_end}
use ntfy.Dialogs.Publish.Form.{
  Form, new_form, show_attach_file, take_topic, take_message, closable, close_topic_url,
  set_base_url, set_topic, close_click_url, close_email, close_call, open_call, close_delay,
  close_attach_url, change_attach_url, change_filename, rename_file, update_attach_file, checked,
  remove_file, Field, is_visible, type_in,
}

-- What can happen to the form: a row that is hidden has no field and no button.
pub data Step (pathname : String → Option String) : Form → Form → Type 0 where
  takes_topic : (url topic : String) (s : Form) → Step pathname s (take_topic url topic s)
  takes_message : (message : String) (s : Form) → Step pathname s (take_message message s)
  types :
      (f : Field) (text : String) (s : Form)
      → is_visible f s ≡ true
      → Step pathname s (record s { draft = type_in f text s.draft })
  picks :
      (emoji : String) (s : Form)
      → Step pathname s
          (record s { draft = type_in Field.tags (handle_emoji_pick s.draft.tags emoji) s.draft })
  chooses :
      (priority : ℕ) (s : Form)
      → Step pathname s (record s { draft = record s.draft { priority = priority } })
  opens_topic : (s : Form) → Step pathname s (record s { show_topic_url = true })
  types_url :
      (url : String) (s : Form) → s.show_topic_url ≡ true → Step pathname s (set_base_url url s)
  types_topic :
      (topic : String) (s : Form) → s.show_topic_url ≡ true → Step pathname s (set_topic topic s)
  closes_topic : (s : Form) → closable s ≡ true → Step pathname s (close_topic_url s)
  opens_click_url : (s : Form) → Step pathname s (record s { show_click_url = true })
  closes_click_url : (s : Form) → Step pathname s (close_click_url s)
  opens_email : (s : Form) → Step pathname s (record s { show_email = true })
  closes_email : (s : Form) → Step pathname s (close_email s)
  opens_call : (phone_number : String) (s : Form) → Step pathname s (open_call phone_number s)
  closes_call : (s : Form) → Step pathname s (close_call s)
  opens_delay : (s : Form) → Step pathname s (record s { show_delay = true })
  closes_delay : (s : Form) → Step pathname s (close_delay s)
  opens_attach_url :
      (s : Form)
      → show_attach_file s ≡ false
      → Step pathname s (record s { show_attach_url = true })
  changes_attach_url :
      (url : String) (s : Form)
      → s.show_attach_url ≡ true
      → Step pathname s (change_attach_url pathname url s)
  changes_filename :
      (filename : String) (s : Form)
      → s.show_attach_url ≡ true
      → Step pathname s (change_filename filename s)
  closes_attach_url : (s : Form) → Step pathname s (close_attach_url s)
  attaches : (f : File) (s : Form) → Step pathname s (update_attach_file f s)
  checks : (error : Option LimitError) (s : Form) → Step pathname s (checked error s)
  renames :
      (filename : String) (s : Form)
      → show_attach_file s ≡ true
      → Step pathname s (rename_file filename s)
  removes : (s : Form) → show_attach_file s ≡ true → Step pathname s (remove_file s)

pub data Reach (pathname : String → Option String) : Form → Type 0 where
  start : (base_url topic : String) → Reach pathname (take_topic base_url topic new_form)
  next : {s s' : Form} → Reach pathname s → Step pathname s s' → Reach pathname s'

-- A row that is hidden holds nothing: the topic is the one that was given, and the other fields are
-- empty; the file has no name where there is neither a file nor the row for its URL.
abbrev pub HoldsNothing : Form → Type 0
HoldsNothing s =
    (s.show_topic_url ≡ false
      → (s.draft.base_url ≡ s.given_base_url) × (s.draft.topic ≡ s.given_topic))
    × (s.show_click_url ≡ false → s.draft.click_url ≡ "")
    × (s.show_email ≡ false → s.draft.email ≡ "")
    × (s.show_call ≡ false → s.draft.call ≡ "")
    × (s.show_delay ≡ false → s.draft.delay ≡ "")
    × (s.show_attach_url ≡ false → s.draft.attach_url ≡ "")
    × (s.show_attach_url ≡ false → s.draft.attach_file ≡ none → s.draft.filename ≡ "")

typed :
    (f : Field) (text : String) (s : Form)
    → is_visible f s ≡ true
    → HoldsNothing s
    → HoldsNothing (record s { draft = type_in f text s.draft })
unfolding type_in
typed Field.title text s v h = h
typed Field.message text s v h = h
typed Field.tags text s v h = h
typed Field.click_url text s v (t, c, e, p, d, a, f) = (t, (λ k. cc), e, p, d, a, f)
typed Field.email text s v (t, c, e, p, d, a, f) = (t, c, (λ k. cc), p, d, a, f)
typed Field.call text s v (t, c, e, p, d, a, f) = (t, c, e, (λ k. cc), d, a, f)
typed Field.delay text s v (t, c, e, p, d, a, f) = (t, c, e, p, (λ k. cc), a, f)

renamed :
    (s : Form) (filename : String)
    → show_attach_file s ≡ true
    → s.show_attach_url ≡ false
    → s.draft.attach_file ≡ none
    → filename ≡ ""
unfolding show_attach_file
renamed s filename v k k' =
    let absent : is_some s.draft.attach_file ≡ false = ap is_some k' in absurd (ground arith)

sends_nothing :
    (m : Draft) (value : String) (name : String)
    → property (search_params m) name ≡ text_value value
    → value ≡ ""
    → property (search_params m) name ≡ none
unfolding trim trim_start trim_end
sends_nothing m value name e e' = e ∙ ap text_value e' ∙ refl

module _ {pathname : String → Option String} where
  Step-HoldsNothing : {s s' : Form} → Step pathname s s' → HoldsNothing s → HoldsNothing s'
  unfolding take_topic take_message close_topic_url set_base_url set_topic close_click_url
      close_email close_call open_call close_delay close_attach_url change_attach_url
      change_filename rename_file update_attach_file checked remove_file type_in
  Step-HoldsNothing (Step.takes_topic url topic s) (t, c, e, p, d, a, f) =
      ((λ k. (refl, refl)), c, e, p, d, a, f)
  Step-HoldsNothing (Step.takes_message message s) h = h
  Step-HoldsNothing (Step.types f text s v) h = typed f text s v h
  Step-HoldsNothing (Step.picks emoji s) h = h
  Step-HoldsNothing (Step.chooses priority s) h = h
  Step-HoldsNothing (Step.opens_topic s) (t, c, e, p, d, a, f) = ((λ k. cc), c, e, p, d, a, f)
  Step-HoldsNothing (Step.types_url url s v) (t, c, e, p, d, a, f) = ((λ k. cc), c, e, p, d, a, f)
  Step-HoldsNothing (Step.types_topic topic s v) (t, c, e, p, d, a, f) =
      ((λ k. cc), c, e, p, d, a, f)
  Step-HoldsNothing (Step.closes_topic s v) (t, c, e, p, d, a, f) =
      ((λ k. (refl, refl)), c, e, p, d, a, f)
  Step-HoldsNothing (Step.opens_click_url s) (t, c, e, p, d, a, f) = (t, (λ k. cc), e, p, d, a, f)
  Step-HoldsNothing (Step.closes_click_url s) (t, c, e, p, d, a, f) =
      (t, (λ k. refl), e, p, d, a, f)
  Step-HoldsNothing (Step.opens_email s) (t, c, e, p, d, a, f) = (t, c, (λ k. cc), p, d, a, f)
  Step-HoldsNothing (Step.closes_email s) (t, c, e, p, d, a, f) = (t, c, (λ k. refl), p, d, a, f)
  Step-HoldsNothing (Step.opens_call n s) (t, c, e, p, d, a, f) = (t, c, e, (λ k. cc), d, a, f)
  Step-HoldsNothing (Step.closes_call s) (t, c, e, p, d, a, f) = (t, c, e, (λ k. refl), d, a, f)
  Step-HoldsNothing (Step.opens_delay s) (t, c, e, p, d, a, f) = (t, c, e, p, (λ k. cc), a, f)
  Step-HoldsNothing (Step.closes_delay s) (t, c, e, p, d, a, f) = (t, c, e, p, (λ k. refl), a, f)
  Step-HoldsNothing (Step.opens_attach_url s v) (t, c, e, p, d, a, f) =
      (t, c, e, p, d, (λ k. cc), (λ k. cc))
  Step-HoldsNothing (Step.changes_attach_url url s v) (t, c, e, p, d, a, f) =
      (t, c, e, p, d, (λ k. cc), (λ k. cc))
  Step-HoldsNothing (Step.changes_filename name s v) (t, c, e, p, d, a, f) =
      (t, c, e, p, d, a, (λ k. cc))
  Step-HoldsNothing (Step.closes_attach_url s) (t, c, e, p, d, a, f) =
      (t, c, e, p, d, (λ k. refl), (λ k k'. refl))
  Step-HoldsNothing (Step.attaches file s) (t, c, e, p, d, a, f) = (t, c, e, p, d, a, (λ k k'. cc))
  Step-HoldsNothing (Step.checks error s) h = h
  Step-HoldsNothing (Step.renames name s v) (t, c, e, p, d, a, f) =
      (t, c, e, p, d, a, (λ k k'. renamed s name v k k'))
  Step-HoldsNothing (Step.removes s v) (t, c, e, p, d, a, f) = (t, c, e, p, d, a, (λ k k'. refl))

  -- Whatever is done in the dialog, a row that is hidden holds nothing.
  pub Reach-HoldsNothing : {s : Form} → Reach pathname s → HoldsNothing s
  unfolding take_topic
  Reach-HoldsNothing (Reach.start url topic) = (
    (λ k. (refl, refl)),
    (λ k. refl),
    (λ k. refl),
    (λ k. refl),
    (λ k. refl),
    (λ k. refl),
    (λ k k'. refl),
  )
  Reach-HoldsNothing (Reach.next r h) = Step-HoldsNothing h (Reach-HoldsNothing r)

  -- Whatever is done in the dialog: the URL to open, the email, the call, the delay and the URL of an
  -- attachment are not sent while their row is hidden, and with the row of the topic hidden the message
  -- goes to the server and the topic that the dialog was given.
  pub search_params-Reach :
      {s : Form}
      → Reach pathname s
      → (s.show_click_url ≡ false → property (search_params s.draft) "click" ≡ none)
        × (s.show_email ≡ false → property (search_params s.draft) "email" ≡ none)
        × (s.show_call ≡ false → property (search_params s.draft) "call" ≡ none)
        × (s.show_delay ≡ false → property (search_params s.draft) "delay" ≡ none)
        × (s.show_attach_url ≡ false → property (search_params s.draft) "attach" ≡ none)
        × (s.show_topic_url ≡ false
            → (s.draft.base_url ≡ s.given_base_url) × (s.draft.topic ≡ s.given_topic))
  search_params-Reach {s} r =
      let (t, c, e, p, d, a, f) = Reach-HoldsNothing r in
      let (_, _, _, click, attach, _, email, call, delay, _, _) = property-search_params s.draft in
      (
        (λ k. sends_nothing s.draft s.draft.click_url "click" click (c k)),
        (λ k. sends_nothing s.draft s.draft.email "email" email (e k)),
        (λ k. sends_nothing s.draft s.draft.call "call" call (p k)),
        (λ k. sends_nothing s.draft s.draft.delay "delay" delay (d k)),
        (λ k. sends_nothing s.draft s.draft.attach_url "attach" attach (a k)),
        t,
      )
