-- ===== src/Dialogs/Publish/Form/Late.antt =====
-- Two ways in which the dialog for publishing goes wrong with a file.
use ntfy.Base.{String, ◌≡◌, refl, true, false, Option, none, some, arith}
use ntfy.Model.{Config}
use ntfy.Dialogs.Publish.{File, LimitError, Body, body_of, send_button_enabled}
use ntfy.Dialogs.Publish.Form.{Form, show_attach_file, update_attach_file, checked, remove_file}
use ntfy.Dialogs.Publish.Form.Hidden.{Step, Reach}

module _ {pathname : String → Option String} (f : File) {s : Form} where
  -- A file that is dropped or pasted while the row for the URL of an attachment is open is not shown, and
  -- is sent.
  pub update_attach_file-hidden :
      Reach pathname s
      → s.show_attach_url ≡ true
      → let s' : Form = update_attach_file f s in
        Reach pathname s' × (show_attach_file s' ≡ false) × (body_of s'.draft ≡ Body.file f)
  unfolding update_attach_file show_attach_file
  update_attach_file-hidden r e = (Reach.next r (Step.attaches f s), ground arith, refl)

  -- When a file is removed before the answer about the limits comes, which then says that the file is too
  -- large, the dialog has no file and cannot be sent, whatever its server and topic are.
  pub remove_file-checked :
      (config : Config) (error : LimitError) (base_url topic : String)
      → Reach pathname s
      → s.show_attach_url ≡ false
      → let s' : Form = checked (some error) (remove_file (update_attach_file f s)) in
        Reach pathname s'
        × (s'.draft.attach_file ≡ none)
        × (send_button_enabled config base_url topic s'.attach_file_error ≡ false)
  unfolding send_button_enabled checked remove_file
  remove_file-checked config error base_url topic r e = (
    Reach.next
        (Reach.next (Reach.next r (Step.attaches f s))
          (Step.removes (update_attach_file f s) shown))
        (Step.checks (some error) (remove_file (update_attach_file f s))),
    refl,
    ground arith,
  )
    where
      shown : show_attach_file (update_attach_file f s) ≡ true
      shown = unfold show_attach_file update_attach_file in ground arith
