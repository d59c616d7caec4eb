-- ===== src/Notifications/Icon.antt =====
-- web/src/components/AttachmentIcon.jsx: the icon of an attachment and the translation that is its text.
mod Tests
use ntfy.Base.{String, Option, none, some, truthy, ◌==◌, if◌then◌else◌}
use ntfy.Base.Text.{starts_with}

pub data Picture : Type 0 where
  file_document file_image file_video file_audio file_app : Picture

pub record Icon : Type 0 where
  pub picture : Picture
  pub label : String

abbrev icon : Picture → String → Icon
icon picture label = record { picture = picture; label = label }

abbrev icon_of : Option String → Icon
icon_of none = icon Picture.file_document "notifications_attachment_file_image"
icon_of (some type) =
    if starts_with type "image/"
    then icon Picture.file_image "notifications_attachment_file_video"
    else if starts_with type "video/"
    then icon Picture.file_video "notifications_attachment_file_video"
    else if starts_with type "audio/"
    then icon Picture.file_audio "notifications_attachment_file_audio"
    else if type == "application/vnd.android.package-archive"
    then icon Picture.file_app "notifications_attachment_file_app"
    else icon Picture.file_document "notifications_attachment_file_document"

unfoldable pub attachment_icon : Option String → Icon
attachment_icon type = icon_of (truthy type)
