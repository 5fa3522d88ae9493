-- ===== src/Platform.antt =====
-- What the scripts take from Python's C libraries: Unicode normalisation and the digests.
use qing_yin.Text.{Text, Bytes}

pub record Platform : Type 0 where
  -- `unicodedata.normalize("NFC", text)`
  pub nfc : Text → Text
  -- `hashlib.sha256(data).hexdigest()` and `hashlib.sha1(data).hexdigest()`
  pub sha256 : Bytes → Text
  pub sha1 : Bytes → Text
