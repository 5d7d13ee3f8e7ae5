-- ===== src/Url/Components.antt =====
-- src/URLStringUtil.cpp, `getURLComponents`.
pub mod Laws
use async_iomanager.Common.{
  suc, ◌+◌, Bool, true, false, Option, none, some, Bytes, codes, is_empty, find, rfind, substr,
  length, if◌then◌else◌, [],
}

pub record Components : Type 0 where
  pub prefix : Bytes
  pub base : Bytes
  pub extension : Bytes

-- `base.rfind(".")` and what follows it.
unfoldable pub extension_of : Bytes → Bytes
extension_of base = elim (rfind b'.' base) [
  | none ↦ []
  | some start ↦ substr base (start + 1) (length base)
]

unfoldable pub get_url_components : Bytes → Components → Bool × Components
get_url_components url out = if is_empty url then (false, out) else elim (find (codes "://") url) [
  | none ↦ (false, out)
  | some index ↦ (
    true,
    record {
      prefix = substr url 0 index;
      base = substr url (index + 3) (length url);
      extension = extension_of (substr url (index + 3) (length url));
    },
  )
]
