-- ===== src/Disposable.antt =====
-- disposable/disposable.py. A disposable calls back when it is disposed of; the callbacks are numbered,
-- and `call` runs them. The delegates of a composite are a tuple.
pub mod Order
mod Tests
use ascetic_ddd_python.Prelude.{ℕ, List, [], ◌∷◌}
use ascetic_ddd_python.Prelude.Result.{Result, ok, raise}

mutual
  pub data Disposable : Type 0 where
    disposable : (callback : ℕ) → Disposable
    composite : (delegates : Delegates) → Disposable

  pub data Delegates : Type 0 where
    no_delegates : Delegates
    delegate : (first : Disposable) (others : Delegates) → Delegates

unfoldable pub append : Delegates → Disposable → Delegates
append no_delegates other = delegate other no_delegates
append (delegate first others) other = delegate first (append others other)

-- `Disposable.__add__`
unfoldable pub add_callback : ℕ → Disposable → Disposable
add_callback callback other =
    composite (delegate (disposable callback) (delegate other no_delegates))

-- `CompositeDisposable.__add__`
unfoldable pub add_delegate : Delegates → Disposable → Disposable
unfolding append
add_delegate delegates other = composite (append delegates other)

-- `+` of either class.
unfoldable pub add : Disposable → Disposable → Disposable
unfolding add_callback add_delegate
add (disposable callback) other = add_callback callback other
add (composite delegates) other = add_delegate delegates other

module _ {E W : Type 0} (call : ℕ → W → Result E Unit × W) where
  -- `dispose` of either class; the loop over the delegates ends at an exception.
  unfoldable mutual
    pub dispose : Disposable → W → Result E Unit × W
    dispose (disposable callback) w = call callback w
    dispose (composite delegates) w = dispose_all delegates w

    pub dispose_all : Delegates → W → Result E Unit × W
    dispose_all no_delegates w = (ok tt, w)
    dispose_all (delegate first others) w =
        let (r, w') = dispose first w in
        elim r [ ok _ ↦ dispose_all others w' | raise e ↦ (raise e, w') ]
