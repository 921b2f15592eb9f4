-- ===== src/Specification/Tests.antt =====
-- Stores with shelves and books, the operators that their specifications use, and the theorems at
-- concrete expressions.
use ascetic_ddd_python.Prelude.{
  ℕ, ◌≡◌, refl, String, true, false, not, ◌&&◌, ◌||◌, ltb, ◌==◌, none, some, List, [], ◌∷◌,
}
use ascetic_ddd_python.Prelude.Result.{ok, raise, ◌>>=◌}
use ascetic_ddd_python.Specification.Nodes.{
  type_error, value_error, eq, gt, and_, or_, not_, non_associative, left_associative, Val, null,
  boolean, scalar, list, context, Context, object, collection, nil, cons, end, entry, Node,
  global_scope, item, object_node, collection_node, field, value, infix_node, and_node, or_node,
  extract_field_path,
}
use ascetic_ddd_python.Specification.Visitor.{Visitor, Mapping, init, get, accept}
use ascetic_ddd_python.Specification.Evaluation.{
  resolve, some_item, eval, as_boolean, as_context, as_list, current,
}
use ascetic_ddd_python.Specification.Collections.{last_item}
use ascetic_ddd_python.Specification.Correctness.{Yields, accept-eval}
use ascetic_ddd_python.Specification.Paths.{follow_path, extract_field_path-eval}
use ascetic_ddd_python.Specification.Connectives.{all_of, any_of, and_or-eval}
use ascetic_ddd_python.Specification.NestedItems.{nested_item}

abbrev operators : Mapping ℕ
operators eq (scalar a ∷ scalar b ∷ []) = ok (boolean (a == b))
operators gt (scalar a ∷ scalar b ∷ []) = ok (boolean (ltb b a))
operators and_ (boolean a ∷ boolean b ∷ []) = ok (boolean (a && b))
operators or_ (boolean a ∷ boolean b ∷ []) = ok (boolean (a || b))
operators not_ (boolean a ∷ []) = ok (boolean (not a))
operators _ _ = raise type_error

abbrev book : ℕ → Val ℕ
book price = context (object (entry "price" (scalar price) end))

abbrev store : Context ℕ
store = object (
    entry "owner" (context (object (entry "age" (scalar 40) end)))
      (entry "books" (context (collection (cons (book 3) (cons (book 8) nil)))) end))

abbrev books : Node ℕ
books = object_node global_scope "books"

abbrev dear : Node ℕ
dear = infix_node (field item "price") gt (value (scalar 5)) non_associative

-- store.books[*] with a price above 5, and an owner of 40.
abbrev wanted : Node ℕ
wanted =
    infix_node (collection_node books "*" dear) and_
      (infix_node (field (object_node global_scope "owner") "age") eq (value (scalar 40))
        non_associative)
      left_associative

wanted_holds : eval operators wanted store none ≡ ok (boolean true)
unfolding eval resolve some_item get as_boolean as_context as_list current
wanted_holds = refl

accept-eval_example :
    Yields (init store) (eval operators wanted store none) (accept operators wanted (init store))
unfolding init
accept-eval_example = accept-eval operators wanted (init store) ((tt, (tt, tt)), (tt, tt))

extract_field_path-eval_example :
    (path : List String) × (extract_field_path {A = ℕ}
        (field (object_node global_scope "owner") "age")
      ≡ ok path)
    × (eval operators (field (object_node global_scope "owner") "age") store none
        ≡ follow_path store path)
extract_field_path-eval_example =
    extract_field_path-eval operators (object_node global_scope "owner") "age" store tt

true_in : eval operators (value (boolean true)) store none ≡ ok (boolean true)
unfolding eval
true_in = refl

false_in : eval operators (value (boolean false)) store none ≡ ok (boolean false)
unfolding eval
false_in = refl

abbrev yes_node : Node ℕ
yes_node = value (boolean true)

and_or-eval_example :
    ((and_node yes_node (value (boolean false) ∷ wanted ∷ []) >>= λ n. eval operators n store none)
      ≡ ok (boolean (all_of (true ∷ false ∷ true ∷ []))))
    × ((or_node yes_node (value (boolean false) ∷ wanted ∷ []) >>= λ n. eval operators n store none)
        ≡ ok (boolean (any_of (true ∷ false ∷ true ∷ []))))
    × (and_node yes_node [] ≡ raise value_error)
    × (or_node yes_node [] ≡ raise value_error)
and_or-eval_example =
    and_or-eval operators store none (λ a b. refl) (λ a b. refl) yes_node (value (boolean false))
      (wanted ∷ []) true false (true ∷ []) (true_in, (false_in, (wanted_holds, tt)))

-- A shelf that is closed, and whose books are open.
abbrev page : Context ℕ
page = object (entry "open" (boolean true) (entry "price" (scalar 8) end))

abbrev shelf : Context ℕ
shelf = object (
    entry "open" (boolean false)
      (entry "books" (context (collection (cons (context page) nil))) end))

abbrev at_shelf : Visitor ℕ
at_shelf = record { context = store; current_value = null; current_item = some shelf; stack = [] }

abbrev shelf_test : Node ℕ
shelf_test =
    infix_node (collection_node (object_node item "books") "*" dear) and_ (field item "open")
      left_associative

books_found :
    resolve (object_node item "books") store (some shelf)
    ≡ ok (collection (cons (context page) nil))
unfolding resolve get as_context current
books_found = refl

books_listed : get (collection (cons (context page) nil)) "*" ≡ ok (list (cons (context page) nil))
unfolding get
books_listed = refl

dear_found :
    some_item (λ x. eval operators dear store (some x)) (cons (context page) nil) false ≡ ok true
unfolding some_item eval resolve get as_context as_boolean current
dear_found = refl

page_last : last_item (cons (context page) nil) none ≡ some page
unfolding last_item
page_last = refl

page_open : get page "open" ≡ ok (boolean true)
unfolding get
page_open = refl

-- The shelf is closed, so the expression is false of it, and yet the visitor finds it true.
shelf_is_closed : eval operators shelf_test store (some shelf) ≡ ok (boolean false)
unfolding eval resolve some_item get as_boolean as_context as_list current
shelf_is_closed = refl

nested_item_example :
    (accept operators shelf_test at_shelf
      ≡ (ok tt, record at_shelf { current_value = boolean true; current_item = some page }))
    × (eval operators shelf_test store (some shelf)
        ≡ (get shelf "open" >>= λ x. operators and_ (boolean true ∷ x ∷ [])))
nested_item_example =
    nested_item operators (object_node item "books") "*" dear and_ left_associative "open" at_shelf
      shelf (collection (cons (context page) nil)) page (cons (context page) nil) true
      (boolean true) (boolean true) tt (tt, tt) refl books_found books_listed dear_found page_last
      page_open refl
