-- ===== src/Tests/Guarding.antt =====
-- A request with the full key.
use quant_execution_engine.Prelude.{◌≡◌, refl, false, some, String, same_text}
use quant_execution_engine.Api.Guards.{
  KeySettings, submit_order, passed, require_api_key, require_owner_mode, full_key_of, admit,
}
use quant_execution_engine.Api.Guards.Writes.{Presents, write_needs_full_key}

abbrev keys : KeySettings
keys = record { api_key = some "full"; read_api_key = some "read"; public_mode = false }

admitted : admit submit_order keys (some "full") ≡ passed
unfolding admit require_api_key require_owner_mode full_key_of same_text
admitted = refl

write_needs_full_key_example :
    ((full : String) × (keys.api_key ≡ some full) × Presents full (some "full"))
    × (keys.public_mode ≡ false)
write_needs_full_key_example = write_needs_full_key submit_order keys (some "full") refl admitted
