-- ===== src/Attributes/Inlining.antt =====
-- `FunctionAttributes.add` of llvmlite/ir/values.py: the two opposite attributes are never together.
use llvmlite.Prelude.{◌≡◌, refl, Bool, false, ◌&&◌, List, [], ◌∷◌, arith}
use llvmlite.Prelude.Texts.{Text, text_eq, text_eq_iff, lit}
use llvmlite.Result.{ok, >>=-eq-ok}
use llvmlite.Attributes.{function, has, add, base_add, add_all, alwaysinline, noinline}
use llvmlite.Attributes.Sets.{has-insert}

abbrev both_inline : List Text → Bool
both_inline attrs = has alwaysinline attrs && has noinline attrs

differ : text_eq alwaysinline noinline ≡ false
unfolding text_eq lit
differ = refl

add_function_inline :
    (name : Text) (attrs : List Text) {out : List Text}
    → both_inline attrs ≡ false
    → add function name attrs ≡ ok out
    → both_inline out ≡ false
unfolding add base_add
add_function_inline name attrs h e = ground (
  arith,
  has-insert name alwaysinline attrs,
  has-insert name noinline attrs,
  text_eq_iff name alwaysinline,
  text_eq_iff name noinline,
  differ,
  text_eq_iff alwaysinline noinline,
)

-- No function has both `alwaysinline` and `noinline`, whatever names are added to its attributes, as
-- long as no call raised.
pub add_all_inline :
    (names attrs : List Text) {out : List Text}
    → (has alwaysinline attrs && has noinline attrs) ≡ false
    → add_all function names attrs ≡ ok out
    → (has alwaysinline out && has noinline out) ≡ false
unfolding add_all
add_all_inline [] attrs h e = ground arith
add_all_inline (n ∷ names) attrs h e =
    let (more, added, rest) = >>=-eq-ok (add function n attrs) _ e in
    add_all_inline names more (add_function_inline n attrs h added) rest
