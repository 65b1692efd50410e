-- ===== src/Values/Identity.antt =====
-- `==` of the values in llvmlite/ir/values.py: constants by their text, metadata by content, and
-- other values by identity. Block addresses, inline assembler and wrapped arguments, which nothing
-- here compares, are taken for different objects each time.
use llvmlite.Prelude.{refl, arith, ◌≡◌, &&-pair, &&-intro, Bool, true, false, ◌&&◌, ◌==◌, bool_eq}
use llvmlite.Prelude.Texts.{text_eq_refl, text_eq}
use llvmlite.Prelude.Int.{ℤ, pos, negsuc}
use llvmlite.Values.{
  di_value, DiOperand, DiItems, di_none, di_bool, di_token, di_str, di_int, di_of, no_items, item,
  md_argument, block_address, inline_asm, Value, Values, Env, constant, formatted, argument,
  instruction, alloca, block, global_variable, func, md_node, md_string, nil, cons, const_str,
}

unfoldable pub int_eq : ℤ → ℤ → Bool
int_eq (pos m) (pos n) = m == n
int_eq (negsuc m) (negsuc n) = m == n
int_eq _ _ = false

-- `int(b)`
unfoldable pub int_of : Bool → ℤ
int_of true = pos 1
int_of false = pos 0

unfoldable mutual
  unfolding int_eq int_of

  pub value_eq : Env → Value → Value → Bool
  value_eq env (constant s c) (constant t d) =
      text_eq (const_str env (constant s c)) (const_str env (constant t d))
  value_eq env (constant s c) (formatted t d) =
      text_eq (const_str env (constant s c)) (const_str env (formatted t d))
  value_eq env (formatted s c) (constant t d) =
      text_eq (const_str env (formatted s c)) (const_str env (constant t d))
  value_eq env (formatted s c) (formatted t d) =
      text_eq (const_str env (formatted s c)) (const_str env (formatted t d))
  value_eq env (argument i s m) (argument j t n) = i == j
  value_eq env (instruction i s m) (instruction j t n) = i == j
  value_eq env (alloca i a s m) (alloca j b t n) = i == j
  value_eq env (block i m) (block j n) = i == j
  value_eq env (global_variable i s a m) (global_variable j t b n) = i == j
  value_eq env (func i s m) (func j t n) = i == j
  value_eq env (md_node m vs) (md_node n ws) = values_eq env vs ws
  value_eq env (md_string s) (md_string t) = text_eq s t
  value_eq env (di_value m d j vs) (di_value n e k ws) =
      bool_eq d e && (text_eq j k && di_items_eq env vs ws)
  value_eq env _ _ = false

  -- `==` of the tuples of operands
  pub values_eq : Env → Values → Values → Bool
  values_eq env nil nil = true
  values_eq env (cons v vs) (cons w ws) = value_eq env v w && values_eq env vs ws
  values_eq env _ _ = false

  -- `==` of operands of debug information, where `True` is 1 and `False` is 0.
  pub di_operand_eq : Env → DiOperand → DiOperand → Bool
  di_operand_eq env di_none di_none = true
  di_operand_eq env (di_bool b) (di_bool c) = bool_eq b c
  di_operand_eq env (di_bool b) (di_int k) = int_eq (int_of b) k
  di_operand_eq env (di_int j) (di_bool c) = int_eq j (int_of c)
  di_operand_eq env (di_int j) (di_int k) = int_eq j k
  di_operand_eq env (di_token i s) (di_token j t) = i == j
  di_operand_eq env (di_str s) (di_str t) = text_eq s t
  di_operand_eq env (di_of v) (di_of w) = value_eq env v w
  di_operand_eq env _ _ = false

  pub di_items_eq : Env → DiItems → DiItems → Bool
  di_items_eq env no_items no_items = true
  di_items_eq env (item j x xs) (item k y ys) =
      text_eq j k && (di_operand_eq env x y && di_items_eq env xs ys)
  di_items_eq env _ _ = false

-- The values whose `==` is modelled.
unfoldable mutual
  pub is_comparable : Value → Bool
  is_comparable (md_argument v) = false
  is_comparable (block_address f b) = false
  is_comparable (inline_asm t s a c) = false
  is_comparable (md_node n vs) = all_comparable vs
  is_comparable (di_value n d k ops) = items_comparable ops
  is_comparable v = true

  pub all_comparable : Values → Bool
  all_comparable nil = true
  all_comparable (cons v vs) = is_comparable v && all_comparable vs

  pub di_comparable : DiOperand → Bool
  di_comparable (di_of v) = is_comparable v
  di_comparable x = true

  pub items_comparable : DiItems → Bool
  items_comparable no_items = true
  items_comparable (item k x xs) = di_comparable x && items_comparable xs

bool_eq_refl : (b : Bool) → bool_eq b b ≡ true
bool_eq_refl true = refl
bool_eq_refl false = refl

int_eq_refl : (k : ℤ) → int_eq k k ≡ true
unfolding int_eq
int_eq_refl (pos n) = ground arith
int_eq_refl (negsuc n) = ground arith

mutual
  unfolding value_eq is_comparable

  eq_refl : (env : Env) (v : Value) → is_comparable v ≡ true → value_eq env v v ≡ true
  eq_refl env (constant t c) h = text_eq_refl (const_str env (constant t c))
  eq_refl env (formatted t c) h = text_eq_refl (const_str env (formatted t c))
  eq_refl env (argument i t n) h = ground arith
  eq_refl env (instruction i t n) h = ground arith
  eq_refl env (alloca i a t n) h = ground arith
  eq_refl env (block i n) h = ground arith
  eq_refl env (global_variable i t a n) h = ground arith
  eq_refl env (func i t n) h = ground arith
  eq_refl env (md_node n vs) h = eqs_refl env vs h
  eq_refl env (di_value n d k ops) h =
      &&-intro (bool_eq d d) (text_eq k k && di_items_eq env ops ops) (bool_eq_refl d)
        (&&-intro (text_eq k k) (di_items_eq env ops ops) (text_eq_refl k) (items_refl env ops h))
  eq_refl env (md_string s) h = text_eq_refl s
  eq_refl env (md_argument v) h = cc
  eq_refl env (block_address f b) h = cc
  eq_refl env (inline_asm t s a c) h = cc

  eqs_refl : (env : Env) (vs : Values) → all_comparable vs ≡ true → values_eq env vs vs ≡ true
  eqs_refl env nil h = refl
  eqs_refl env (cons v vs) h =
      let (hv, hvs) = &&-pair (is_comparable v) (all_comparable vs) h in
      &&-intro (value_eq env v v) (values_eq env vs vs) (eq_refl env v hv) (eqs_refl env vs hvs)

  di_refl : (env : Env) (x : DiOperand) → di_comparable x ≡ true → di_operand_eq env x x ≡ true
  di_refl env di_none h = refl
  di_refl env (di_bool b) h = bool_eq_refl b
  di_refl env (di_token i s) h = ground arith
  di_refl env (di_str s) h = text_eq_refl s
  di_refl env (di_int k) h = int_eq_refl k
  di_refl env (di_of v) h = eq_refl env v h

  items_refl :
      (env : Env) (xs : DiItems) → items_comparable xs ≡ true → di_items_eq env xs xs ≡ true
  items_refl env no_items h = refl
  items_refl env (item k x xs) h =
      let (hx, hxs) = &&-pair (di_comparable x) (items_comparable xs) h in
      &&-intro (text_eq k k) (di_operand_eq env x x && di_items_eq env xs xs) (text_eq_refl k) (
        &&-intro (di_operand_eq env x x) (di_items_eq env xs xs) (di_refl env x hx)
          (items_refl env xs hxs))

-- Operands that can be compared equal themselves, so that the cache finds them again.
pub di_items_eq_refl :
    (env : Env) (xs : DiItems) → items_comparable xs ≡ true → di_items_eq env xs xs ≡ true
di_items_eq_refl env xs h = items_refl env xs h

pub values_eq_refl :
    (env : Env) (vs : Values) → all_comparable vs ≡ true → values_eq env vs vs ≡ true
values_eq_refl env vs h = eqs_refl env vs h
