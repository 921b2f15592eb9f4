-- ===== src/Identity/Tests.antt =====
-- Importing into an identity that has a value, and into a transient one.
use ascetic_ddd_python.Prelude.{◌≡◌, refl, some}
use ascetic_ddd_python.Prelude.Result.{ok, raise}
use ascetic_ddd_python.Identity.{transient, import_value, type_error}

imported : import_value 4 (record { stored = some 3 }) ≡ ok (record { stored = some 4 })
unfolding import_value
imported = refl

refused : import_value 4 transient ≡ raise type_error
unfolding import_value transient
refused = refl
