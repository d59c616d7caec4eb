-- ===== src/Model.antt =====
-- The objects that the parts of the web app pass to one another and keep in the database of
-- web/src/app/db.js, and the settings of web/public/config.js. A property that may be undefined or
-- null is an `Option`; a flag that may be undefined is false then.
use ntfy.Base.{ℕ, String, Bool, Option, List}

pub record Config : Type 0 where
  pub base_url : String
  pub app_root : String
  pub enable_web_push : Bool
  pub web_push_public_key : String
  pub disallowed_topics : List String

pub data Permission : Type 0 where
  read_write read_only write_only deny_all : Permission

pub record Reservation : Type 0 where
  pub topic : String
  pub everyone : Permission

pub data ConnectionState : Type 0 where
  connected connecting : ConnectionState

-- A row of the table `subscriptions`, by its key `id`.
pub record Subscription : Type 0 where
  pub id : String
  pub base_url : String
  pub topic : String
  pub muted_until : ℕ
  pub last : Option String
  pub display_name : Option String
  pub reservation : Option Reservation
  pub internal : Bool
  pub state : Option ConnectionState

-- A row of the table `users`, by its key `base_url`.
pub record User : Type 0 where
  pub base_url : String
  pub username : String
  pub password : Option String
  pub token : Option String

pub record Attachment : Type 0 where
  pub name : Option String
  pub type : Option String
  pub url : Option String
  pub size : Option ℕ
  pub expires : Option ℕ

pub record Action : Type 0 where
  pub id : String
  pub action : String
  pub label : String
  pub url : String
  pub method : Option String
  pub headers : Option (List (String × String))
  pub body : Option String
  pub clear : Bool
  pub progress : Option ℕ
  pub error : Option String

-- A message as the server sends it.
pub record Message : Type 0 where
  pub id : String
  pub time : ℕ
  pub topic : String
  pub title : Option String
  pub message : String
  pub tags : Option (List String)
  pub priority : Option ℕ
  pub click : Option String
  pub attachment : Option Attachment
  pub actions : Option (List Action)

-- A row of the table `notifications`, by the key `id` of its message. `new` is 1, 0 or undefined.
pub record Notification : Type 0 where
  pub message : Message
  pub subscription_id : String
  pub new : Option ℕ

-- What a setting holds: all are texts but the flag `webPushEnabled`.
pub data Value : Type 0 where
  text : String → Value
  flag : Bool → Value

-- A row of the table `prefs`.
pub record Setting : Type 0 where
  pub key : String
  pub value : Value

abbrev pub notification_id : Notification → String
notification_id n = n.message.id
