-- ===== src/Dkim/Platform.antt =====
-- What the verifier calls in OpenSSL and Qt, as a parameter.
use mailove.Common.{Bool, Option, Bytes, ℤ}

pub record Platform : Type 1 where
  -- EVP_PKEY
  pub PublicKey : Type 0
  -- EVP_PKEY_new_raw_public_key and d2i_PUBKEY; no key if the bytes are none
  pub raw_ed25519_key : Bytes → Option PublicKey
  pub decode_public_key : Bytes → Option PublicKey
  -- EVP_DigestVerify with no digest, and EVP_DigestVerifyFinal with SHA-256: key, data, signature
  pub verifies_raw : PublicKey → Bytes → Bytes → Bool
  pub verifies_sha256 : PublicKey → Bytes → Bytes → Bool
  pub sha256 : Bytes → Bytes
  pub to_base64 : Bytes → Bytes
  pub from_base64 : Bytes → Bytes
  -- QByteArray::toInt and toLongLong: none where they report failure
  pub to_int : Bytes → Option ℤ
  pub to_long_long : Bytes → Option ℤ
  -- QString::toLower
  pub lower_text : Bytes → Bytes
  -- QString::replace by a case-insensitive QRegularExpression: pattern, replacement, text
  pub replace : Bytes → Bytes → Bytes → Bytes
