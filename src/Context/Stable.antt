-- ===== src/Context/Stable.antt =====
-- One identified type for each name of a context, and one body for each identified type.
use llvmlite.Prelude.{
  ◌≡◌, refl, ap, ◌∙◌, inl, inr, Bool, true, false, [], ◌∷◌, ◌++◌, ℕ, Option, none, some, arith,
  if◌then◌else◌, Bool-cases, Option-cases,
}
use llvmlite.Prelude.Texts.{Text, text_eq, text_eq_refl, text_eq_iff}
use llvmlite.Result.{Result, ok, err, runtime_error, name_error, assertion_error}
use llvmlite.Scope.{is_used, register, add}
use llvmlite.Types.{Ty, Tys, identified}
use llvmlite.Context.{
  Struct, Structs, Context, find, known_or_new, get_identified_type, elements_of, bodies, put_body,
  set_body,
}

abbrev or_else : Option Struct → Option Struct → Option Struct
or_else none b = b
or_else (some a) b = some a

find-append :
    (name key : Text) (st : Struct) (l : Structs)
    → find name (l ++ (key, st) ∷ [])
      ≡ or_else (find name l) (if text_eq key name then some st else none)
unfolding find
find-append name key st [] = refl
find-append name key st ((k, s) ∷ l) = elim (Bool-cases (text_eq k name)) [
  | inl same ↦ rw same refl
  | inr differ ↦ rw differ (find-append name key st l)
]

find-put_body :
    (name other : Text) (elems : Tys) (l : Structs)
    → elements_of (find other (put_body name elems l)) ≡ (
        if text_eq name other
        then (elim (find name l) [ none ↦ none | some _ ↦ some elems ])
        else elements_of (find other l))
unfolding find put_body elements_of
find-put_body name other elems [] = ground arith
find-put_body name other elems ((k, s) ∷ l) = ground (
  arith,
  find-put_body name other elems l,
  text_eq_iff k name,
  text_eq_iff k other,
  text_eq_iff name other,
)

-- What a request for a name that is not known yet does, once the name is free.
get_new :
    (c : ℕ) (cs : Text) (packed : Bool) (ctx : Context)
    → find (c ∷ cs) ctx.identified_types ≡ none
    → is_used ctx.scope (c ∷ cs) ≡ false
    → get_identified_type (c ∷ cs) packed ctx ≡ (
      ok (identified (c ∷ cs) packed),
      record {
        scope = add (c ∷ cs) ctx.scope;
        identified_types =
            ctx.identified_types ++ (c ∷ cs, record { packed = packed; elements = none }) ∷ [];
      },
    )
unfolding get_identified_type register
get_new c cs packed ctx h k = rw (h, known_or_new) (rw k)

get_taken :
    (name : Text) (packed : Bool) (ctx : Context)
    → find name ctx.identified_types ≡ none
    → is_used ctx.scope name ≡ true
    → get_identified_type name packed ctx ≡ (err name_error, ctx)
unfolding get_identified_type register
get_taken name packed ctx h k = rw (h, known_or_new) (rw k)

get_known :
    (name : Text) (packed : Bool) (ctx : Context) (st : Struct)
    → find name ctx.identified_types ≡ some st
    → get_identified_type name packed ctx ≡ (ok (identified name st.packed), ctx)
unfolding get_identified_type
get_known name packed ctx st h = rw (h, known_or_new)

get_empty :
    (packed : Bool) (ctx : Context)
    → find [] ctx.identified_types ≡ none
    → is_used ctx.scope [] ≡ false
    → get_identified_type [] packed ctx
      ≡ (err assertion_error, record ctx { scope = add [] ctx.scope })
unfolding get_identified_type register
get_empty packed ctx h k = rw (h, known_or_new) (rw k)

find_last :
    (name : Text) (st : Struct) (l : Structs)
    → find name l ≡ none
    → find name (l ++ (name, st) ∷ []) ≡ some st
find_last name st l h = find-append name name st l ∙ rw (h, text_eq_refl) refl

module _ (name : Text) (p q : Bool) (ctx ctx' : Context) {r : Result Ty} {t : Ty} where
  again_ok :
      get_identified_type name p ctx ≡ (r, ctx')
      → (r ≡ ok t → get_identified_type name q ctx' ≡ (r, ctx'))
      → (get_identified_type name p ctx).0 ≡ ok t
      → get_identified_type name q (get_identified_type name p ctx).1
        ≡ (ok t, (get_identified_type name p ctx).1)
  again_ok first second e =
      let e' : r ≡ ok t = rw first at e in rw first (second e' ∙ ap (λ x. (x, ctx')) e')

-- Asking for a name once more gives the type that the first request gave, whatever packing the
-- second request names, and changes nothing.
pub get_identified_type_again :
    (name : Text) (p q : Bool) (ctx : Context) {t : Ty}
    → (get_identified_type name p ctx).0 ≡ ok t
    → get_identified_type name q (get_identified_type name p ctx).1
      ≡ (ok t, (get_identified_type name p ctx).1)
get_identified_type_again name p q ctx = elim (Option-cases (find name ctx.identified_types)) [
  | inr (st, known) ↦
      again_ok name p q ctx ctx (get_known name p ctx st known) (λ _. get_known name q ctx st known)
  | inl new ↦ elim (Bool-cases (is_used ctx.scope name)) [
    | inl used ↦ again_ok name p q ctx ctx (get_taken name p ctx new used) (λ e. cc)
    | inr free ↦ again_new name p q ctx new free
  ]
]
  where
    again_new :
        (name : Text) (p q : Bool) (ctx : Context) {t : Ty}
        → find name ctx.identified_types ≡ none
        → is_used ctx.scope name ≡ false
        → (get_identified_type name p ctx).0 ≡ ok t
        → get_identified_type name q (get_identified_type name p ctx).1
          ≡ (ok t, (get_identified_type name p ctx).1)
    again_new [] p q ctx new free =
        again_ok [] p q ctx (record ctx { scope = add [] ctx.scope }) (get_empty p ctx new free)
          (λ e. cc)
    again_new (c ∷ cs) p q ctx new free =
        let st : Struct = record { packed = p; elements = none } in
        let ctx' : Context = record {
          scope = add (c ∷ cs) ctx.scope;
          identified_types = ctx.identified_types ++ (c ∷ cs, st) ∷ [];
        } in
        again_ok (c ∷ cs) p q ctx ctx' (get_new c cs p ctx new free)
          (λ _. get_known (c ∷ cs) q ctx' st (find_last (c ∷ cs) st ctx.identified_types new))

-- What the bodies are after the elements of one type were stored.
bodies_put :
    (name : Text) (elems : Tys) (ctx : Context) (st : Struct)
    → find name ctx.identified_types ≡ some st
    → (other : Text)
    → bodies (record ctx { identified_types = put_body name elems ctx.identified_types }) other
      ≡ (if text_eq name other then some elems else bodies ctx other)
unfolding bodies
bodies_put name elems ctx st known other =
    find-put_body name other elems ctx.identified_types ∙ rw known refl

set_body_undefined :
    (name : Text) (elems : Tys) (ctx : Context)
    → bodies ctx name ≡ none
    → set_body name elems ctx
      ≡ (ok tt, record ctx { identified_types = put_body name elems ctx.identified_types })
unfolding set_body
set_body_undefined name elems ctx h = rw h refl

set_body_defined :
    (name : Text) (elems old : Tys) (ctx : Context)
    → bodies ctx name ≡ some old
    → set_body name elems ctx ≡ (err runtime_error, ctx)
unfolding set_body
set_body_defined name elems old ctx h = rw h refl

-- The body of an opaque type of the context is the one given to the first `set_body`: the call
-- succeeds and changes no other type, and a second call raises and changes nothing.
pub set_body_once :
    (name : Text) (elems again : Tys) (ctx : Context) (st : Struct)
    → find name ctx.identified_types ≡ some st
    → st.elements ≡ none
    → ((set_body name elems ctx).0 ≡ ok tt)
      × ((other : Text)
          → bodies (set_body name elems ctx).1 other
            ≡ (if text_eq name other then some elems else bodies ctx other))
      × (set_body name again (set_body name elems ctx).1
          ≡ (err runtime_error, (set_body name elems ctx).1))
set_body_once name elems again ctx st known opaque =
    let undefined : bodies ctx name ≡ none = unfold bodies elements_of in rw known opaque in
    let after = bodies_put name elems ctx st known in
    rw (set_body_undefined name elems ctx undefined)
      (refl, after, set_body_defined name again elems _ (after name ∙ rw text_eq_refl refl))
