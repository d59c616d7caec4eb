-- ===== src/Dialogs/Publish/Dragging.antt =====
-- How the dialog for publishing is opened and closed: web/src/components/Messaging.jsx, which keeps the
-- mode, and the handlers of PublishDialog.jsx for files that are dragged and pasted. When the dialog is
-- closed it gets a new key, by which React makes its state anew.
use ntfy.Base.{◌≢◌, ◌≡◌, refl, Bool, true, false, Option, none, some, is_some, ◌+◌, ℕ}
use ntfy.Dialogs.Publish.{File}

pub data Mode : Type 0 where
  closed default drag : Mode

pub record Dialog : Type 0 where
  pub open_mode : Mode
  pub dialog_key : ℕ
  pub drop_zone : Bool
  pub attach_file : Option File

-- `onDragEnter`: the mode changes only if the dialog is not open.
abbrev pub entered : Mode → Mode
entered closed = drag
entered default = default
entered drag = drag

-- `handleDialogClose` of Messaging
unfoldable pub close : Dialog → Dialog
close s = record {
  open_mode = closed;
  dialog_key = s.dialog_key + 1;
  drop_zone = false;
  attach_file = none;
}

-- `handleOpenDialogClick`
unfoldable pub open_dialog : Dialog → Dialog
open_dialog s = record s { open_mode = default }

-- `updateAttachFile`, without the check of the limits. Where the list of files has none, as when a text
-- is dropped or no file is chosen, `file.name` throws before the mode is reset.
unfoldable pub update_attach_file : Option File → Dialog → Dialog
update_attach_file none s = record s { attach_file = none }
update_attach_file (some f) s = record s { attach_file = some f; open_mode = default }

-- The listener for "dragenter"
unfoldable pub drag_enter : Dialog → Dialog
drag_enter s = record s { open_mode = entered s.open_mode; drop_zone = true }

abbrev pub left : Mode → Dialog → Dialog
unfolding close
left drag s = close s
left closed s = s
left default s = s

unfoldable pub handle_attach_file_drag_leave : Dialog → Dialog
unfolding left
handle_attach_file_drag_leave s = left s.open_mode (record s { drop_zone = false })

unfoldable pub handle_attach_file_drop : Option File → Dialog → Dialog
unfolding update_attach_file
handle_attach_file_drop file s = update_attach_file file (record s { drop_zone = false })

-- `handlePaste` of the message bar: the effect of the dialog takes the file over.
unfoldable pub handle_paste : File → Dialog → Dialog
unfolding open_dialog update_attach_file
handle_paste f s = update_attach_file (some f) (open_dialog s)

pub data Step : Dialog → Dialog → Type 0 where
  opens : (s : Dialog) → Step s (open_dialog s)
  closes : (s : Dialog) → Step s (close s)
  chooses : (file : Option File) (s : Dialog) → Step s (update_attach_file file s)
  enters : (s : Dialog) → Step s (drag_enter s)
  leaves : (s : Dialog) → Step s (handle_attach_file_drag_leave s)
  drops : (file : Option File) (s : Dialog) → Step s (handle_attach_file_drop file s)
  pastes : (f : File) (s : Dialog) → Step s (handle_paste f s)

pub data Reach : Dialog → Type 0 where
  start :
      Reach (record { open_mode = closed; dialog_key = 0; drop_zone = false; attach_file = none })
  next : {s s' : Dialog} → Reach s → Step s s' → Reach s'

pub record IsConsistent (s : Dialog) : Type 0 where
  pub zone_open : s.drop_zone ≡ true → s.open_mode ≢ closed
  pub file_open : is_some s.attach_file ≡ true → s.open_mode ≡ default

entered-IsConsistent :
    (mode : Mode) (s : Dialog)
    → s.open_mode ≡ mode
    → IsConsistent s
    → IsConsistent (record s { open_mode = entered mode; drop_zone = true })
entered-IsConsistent closed s e h = record {
  zone_open = λ _ e'. cc;
  file_open = λ e'. let opened = h.file_open e' in cc;
}
entered-IsConsistent default s e h = record { zone_open = λ _ e'. cc; file_open = λ e'. refl }
entered-IsConsistent drag s e h = record {
  zone_open = λ _ e'. cc;
  file_open = λ e'. let opened = h.file_open e' in cc;
}

left-IsConsistent :
    (mode : Mode) (s : Dialog)
    → s.open_mode ≡ mode
    → IsConsistent s
    → IsConsistent (left mode (record s { drop_zone = false }))
unfolding left close
left-IsConsistent drag s e h = record { zone_open = λ e'. cc; file_open = λ e'. cc }
left-IsConsistent closed s e h = record { zone_open = λ e'. cc; file_open = h.file_open }
left-IsConsistent default s e h = record { zone_open = λ e'. cc; file_open = h.file_open }

Step-IsConsistent : {s s' : Dialog} → Step s s' → IsConsistent s → IsConsistent s'
unfolding open_dialog close update_attach_file drag_enter handle_attach_file_drag_leave
    handle_attach_file_drop handle_paste
Step-IsConsistent (opens s) h = record { zone_open = λ e e'. cc; file_open = λ e. refl }
Step-IsConsistent (closes s) h = record { zone_open = λ e. cc; file_open = λ e. cc }
Step-IsConsistent (chooses none s) h = record { zone_open = h.zone_open; file_open = λ e. cc }
Step-IsConsistent (chooses (some f) s) h = record { zone_open = λ e e'. cc; file_open = λ e. refl }
Step-IsConsistent (enters s) h = entered-IsConsistent s.open_mode s refl h
Step-IsConsistent (leaves s) h = left-IsConsistent s.open_mode s refl h
Step-IsConsistent (drops none s) h = record { zone_open = λ e. cc; file_open = λ e. cc }
Step-IsConsistent (drops (some f) s) h = record { zone_open = λ e. cc; file_open = λ e. refl }
Step-IsConsistent (pastes f s) h = record { zone_open = λ e e'. cc; file_open = λ e. refl }

-- However files are dragged, dropped, chosen and pasted, also where there is none, and the dialog is
-- opened and closed: the place to drop is shown only while the dialog is open, and a dialog with a file
-- is open in the default mode, not in that of dragging.
pub Reach-IsConsistent : {s : Dialog} → Reach s → IsConsistent s
Reach-IsConsistent start = record { zone_open = λ e. cc; file_open = λ e. cc }
Reach-IsConsistent (next reached step) = Step-IsConsistent step (Reach-IsConsistent reached)

-- A dialog that was opened by dragging something that is not a file stays in that mode when it is
-- dropped: when a file is dragged over it later and leaves again, the dialog is closed.
pub closes_later :
    (s : Dialog)
    → s.open_mode ≡ closed
    → (handle_attach_file_drag_leave
        (drag_enter (handle_attach_file_drop none (drag_enter s)))).open_mode
      ≡ closed
unfolding handle_attach_file_drag_leave drag_enter handle_attach_file_drop update_attach_file close
closes_later s e = rw e refl
