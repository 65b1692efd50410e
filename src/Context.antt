-- ===== src/Context.antt =====
-- llvmlite/ir/context.py, and `IdentifiedStructType` of llvmlite/ir/types.py: the identified struct
-- types of a context with their bodies.
pub mod Stable
use llvmlite.Prelude.{Bool, true, false, List, [], ◌∷◌, ◌++◌, Option, none, some, if◌then◌else◌}
use llvmlite.Prelude.Texts.{Text, text_eq, lit}
use llvmlite.Result.{Result, ok, err, assertion_error, runtime_error, key_error}
use llvmlite.Scope
use llvmlite.Scope.{NameScope, register}
use llvmlite.Types.{Ty, Tys, identified}
use llvmlite.Types.Lookup.{Bodies}
use llvmlite.Types.Print.{types_text, structure_repr, identified_text}

-- What an `IdentifiedStructType` object holds beside its name: `_packed` and `elements`.
pub record Struct : Type 0 where
  pub packed : Bool
  pub elements : Option Tys

abbrev pub Structs : Type 0
Structs = List (Text × Struct)

-- `identified_types`, a dictionary, in the order of insertion.
pub record Context : Type 0 where
  pub scope : NameScope
  pub identified_types : Structs

-- `Context.__init__`
abbrev pub empty : Context
empty = record { scope = Scope.empty; identified_types = [] }

unfoldable pub find : Text → Structs → Option Struct
find name [] = none
find name ((key, st) ∷ rest) = if text_eq key name then some st else find name rest

-- The assertion of `IdentifiedStructType.__init__`, and the new entry.
unfoldable pub new_struct : Text → Bool → Context → Result Ty × Context
new_struct [] packed ctx = (err assertion_error, ctx)
new_struct (c ∷ cs) packed ctx = (
  ok (identified (c ∷ cs) packed),
  record ctx {
    identified_types =
        ctx.identified_types ++ (c ∷ cs, record { packed = packed; elements = none }) ∷ [];
  },
)

-- What follows `self.scope.register(name)`.
unfoldable pub registered : Text → Bool → Result Text → Context → Result Ty × Context
unfolding new_struct
registered name packed (err e) ctx = (err e, ctx)
registered name packed (ok _) ctx = new_struct name packed ctx

unfoldable pub known_or_new : Text → Bool → Option Struct → Context → Result Ty × Context
unfolding registered
known_or_new name packed (some st) ctx = (ok (identified name st.packed), ctx)
known_or_new name packed none ctx =
    let (r, scope') = register name false ctx.scope in
    registered name packed r (record ctx { scope = scope' })

-- `Context.get_identified_type`
unfoldable pub get_identified_type : Text → Bool → Context → Result Ty × Context
unfolding known_or_new find
get_identified_type name packed ctx = known_or_new name packed (find name ctx.identified_types) ctx

-- The elements that a type of the context has.
unfoldable pub elements_of : Option Struct → Option Tys
elements_of none = none
elements_of (some st) = st.elements

unfoldable pub bodies : Context → Bodies
unfolding elements_of find
bodies ctx name = elements_of (find name ctx.identified_types)

unfoldable pub put_body : Text → Tys → Structs → Structs
put_body name elems [] = []
put_body name elems ((key, st) ∷ rest) =
    if text_eq key name
    then (key, record st { elements = some elems }) ∷ rest
    else (key, st) ∷ put_body name elems rest

unfoldable pub set_undefined : Text → Tys → Option Tys → Context → Result (Unit {0}) × Context
unfolding put_body
set_undefined name elems (some _) ctx = (err runtime_error, ctx)
set_undefined name elems none ctx =
    (ok tt, record ctx { identified_types = put_body name elems ctx.identified_types })

-- `IdentifiedStructType.set_body` of the type with this name.
unfoldable pub set_body : Text → Tys → Context → Result (Unit {0}) × Context
unfolding set_undefined bodies
set_body name elems ctx = set_undefined name elems (bodies ctx name) ctx

-- `IdentifiedStructType.get_declaration`
unfoldable pub body_text : Bool → Bool → Option Tys → Text
unfolding structure_repr types_text lit
body_text enabled packed none = lit "opaque"
body_text enabled packed (some elems) = structure_repr packed (types_text enabled elems)

unfoldable pub get_declaration : Bool → Text → Struct → Text
unfolding body_text identified_text lit
get_declaration enabled name st =
    identified_text name ++ (lit " = type " ++ body_text enabled st.packed st.elements)
