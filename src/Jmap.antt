-- ===== src/Jmap.antt =====
-- JMAP, the protocol of one of the mail backends: the values of JSON that the client reads
-- (QJsonValue) and what it takes from QUrl and the texts of Qt.
pub mod Numbered
pub mod Ingest
pub mod Session
pub mod Discovery
pub mod Templates
pub mod Request
pub mod Sending
pub mod Posts
pub mod Pinned
pub mod Expanded
pub mod Batches
pub mod Once
use mailove.Common.{ℕ, Bool, true, false, Option, Bytes, ℤ, List, [], ◌∷◌, equal, if◌then◌else◌}

-- A number is what static_cast<qint64> makes of it. The fields of an object have distinct keys.
mutual
  pub data Json : Type 0 where
    null : Json
    boolean : Bool → Json
    number : ℤ → Json
    text : Bytes → Json
    array : JsonItems → Json
    object : JsonFields → Json

  pub data JsonItems : Type 0 where
    nil : JsonItems
    cons : Json → JsonItems → JsonItems

  pub data JsonFields : Type 0 where
    end : JsonFields
    field : Bytes → Json → JsonFields → JsonFields

-- value(key): null stands for QJsonValue::Undefined
unfoldable pub value_of : Bytes → JsonFields → Json
unfolding equal
value_of key end = null
value_of key (field name v fields) = if equal name key then v else value_of key fields

unfoldable pub to_text : Json → Bytes
to_text (text b) = b
to_text null = []
to_text (boolean b) = []
to_text (number n) = []
to_text (array items) = []
to_text (object fields) = []

unfoldable pub to_bool : Json → Bool
to_bool (boolean b) = b
to_bool null = false
to_bool (text b) = false
to_bool (number n) = false
to_bool (array items) = false
to_bool (object fields) = false

unfoldable pub to_object : Json → JsonFields
to_object (object fields) = fields
to_object null = end
to_object (boolean b) = end
to_object (number n) = end
to_object (text b) = end
to_object (array items) = end

unfoldable pub to_array : Json → JsonItems
to_array (array items) = items
to_array null = nil
to_array (boolean b) = nil
to_array (number n) = nil
to_array (text b) = nil
to_array (object fields) = nil

-- keys()
unfoldable pub keys : JsonFields → List Bytes
keys end = []
keys (field name v fields) = name ∷ keys fields

-- MailBackend::Error
pub data Error : Type 0 where
  no_error : Error
  auth : Error
  throttled : Error
  connection : Error
  protocol : Error
  not_found : Error

-- QUrl and the functions of Qt on texts. `port u n` is QUrl::port with the default n, `no_url` is
-- QUrl(), `parse_json` gives no value where QJsonDocument::fromJson reports an error.
pub record UrlPlatform : Type 1 where
  pub Url : Type 0
  pub no_url : Url
  pub is_valid : Url → Bool
  pub is_empty_url : Url → Bool
  pub is_relative : Url → Bool
  pub parse_tolerant : Bytes → Url
  pub parse_strict : Bytes → Url
  pub resolved : Url → Url → Url
  pub scheme : Url → Bytes
  pub host : Url → Bytes
  pub path : Url → Bytes
  pub port : Url → ℕ → ℤ
  pub set_path : Bytes → Url → Url
  pub fully_encoded : Url → Bytes
  pub percent_encode : Bytes → Bytes
  pub equal_caseless : Bytes → Bytes → Bool
  pub starts_with_caseless : Bytes → Bytes → Bool
  pub replace_caseless : Bytes → Bytes → Bytes → Bytes
  pub lower_text : Bytes → Bytes
  pub trim_text : Bytes → Bytes
  pub to_utf8 : Bytes → Bytes
  pub to_base64 : Bytes → Bytes
  pub print_number : ℕ → Bytes
  pub parse_json : Bytes → Option Json
