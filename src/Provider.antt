-- ===== src/Provider.antt =====
-- crates/provider-openai: the decoder of the provider's event stream. `StreamJson` is what the
-- decoder uses of `serde_json::Value`.
pub mod Stream
pub mod Finish
pub mod Drafts
pub mod Tests
use nausicaa.Prelude.{ℕ, String, Bool, Option, List, Result}

pub record StreamJson (V : Type 0) : Type 0 where
  pub parse : String → Result V String
  pub display : V → String
  pub get : String → V → Option V
  pub is_null : V → Bool
  pub as_str : V → Option String
  pub as_u64 : V → Option ℕ
  pub as_array : V → Option (List V)
  pub null : V
  pub string : String → V
  pub array : List V → V
  pub object : List (String × V) → V
