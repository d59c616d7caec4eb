-- ===== src/Notifications/Icon/Tests.antt =====
-- An image, and an attachment of an unknown type.
use ntfy.Base.{◌≡◌, refl, none, some}
use ntfy.Notifications.Icon.{Picture, attachment_icon}

image_said_to_be_video :
    attachment_icon (some "image/png")
    ≡ record { picture = Picture.file_image; label = "notifications_attachment_file_video" }
unfolding attachment_icon
image_said_to_be_video = refl

unknown_said_to_be_image :
    attachment_icon none
    ≡ record { picture = Picture.file_document; label = "notifications_attachment_file_image" }
unfolding attachment_icon
unknown_said_to_be_image = refl
