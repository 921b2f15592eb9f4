-- ===== src/OptionType/Laws.antt =====
-- Equality and hash of options see only the optional values that they stand for.
use ascetic_ddd_python.Prelude.{◌≡◌, ◌↔◌, Bool, true, Option, none, some, if◌then◌else◌, arith}
use ascetic_ddd_python.OptionType.{OptionObject, eq, hash_of}

-- The optional value that an object stands for; an invalid one stands for none, whatever it holds.
unfoldable pub view : {T : Type 0} → OptionObject T → Option T
view o = if o.valid then some o.val else none

-- Let the `==` of the values hold of identical values only, and of all of them. Then two options are
-- equal exactly if they stand for the same optional value, and options that are equal have the same
-- hash.
pub eq-view :
    {T H : Type 0} (same : T → T → Bool) (null : T) (hash : Bool → T → H)
    → ((a b : T) → (same a b ≡ true) ↔ (a ≡ b))
    → (o p : OptionObject T)
    → ((eq same o p ≡ true) ↔ (view o ≡ view p))
      × (eq same o p ≡ true → hash_of null hash o ≡ hash_of null hash p)
unfolding eq hash_of view
eq-view same null hash iff o p = (
  (ground (arith, (iff o.val p.val).0), ground (arith, (iff o.val p.val).1)),
  ground (arith, (iff o.val p.val).0),
)
