-- ===== src/Server/Registry.antt =====
-- What register of rpc/server.go adds to the registry, and what getSeviceMethod finds there.
use Prim.Native.Char.{code}
use Prim.Native.String.{◌++◌ as text_append}
use text.Mathlib.Text.{◌==◌ as text_beq}
use text.Mathlib.TextLemmas.{nil-append, cons-append}
use mathlib.Core.List.{Memᴰ}
use gopl.Prelude.{
  ◌≡◌, refl, ap, ◌∙◌, Bool, true, false, ◌||◌, not, ◌&&◌, Option, none, some, String, List, [], ◌∷◌,
  ◌==◌, arith, if◌then◌else◌, Bool-cases, inl, inr,
}
use gopl.Keys.{text_eq}
use gopl.GoMap.{GoMap, lookup, assign, lookup-assign, lookup-assign_self}
use gopl.RpcError.{GoError, other, ok, err}
use gopl.Server.{
  register_as, is_exported, type_name, indirect, GoType, Method, TMethodType, TService, Services,
  is_error_type, is_pointer, split_dot, find_method, get_service_method,
  is_exported_or_builtin_type, check_method, suitable_methods, install, if_free, register,
  add_method,
}

abbrev pub has_dot : String → Bool
has_dot String.[] = false
has_dot (String.◌∷◌ c s) = code c == b'.' || has_dot s

abbrev pub full_name : String → String → String
full_name service_name method_name = text_append service_name (text_append "." method_name)

pub split_dot-full_name :
    (a b : String) → has_dot a ≡ false → split_dot (full_name a b) ≡ some (a, b)
unfolding split_dot
split_dot-full_name String.[] b h =
    ground (arith, nil-append (text_append "." b), cons-append "." "" b, nil-append b)
split_dot-full_name (String.◌∷◌ c s) b h =
    ground (arith, split_dot-full_name s b, cons-append c s (text_append "." b))

-- What a method must be for suitableMethods to take it.
pub record IsSuitable (is_upper : String → Bool) (m : Method) (t : TMethodType) : Type 0 where
  pub method : t.method ≡ m
  pub pkg_path : text_beq m.pkg_path "" ≡ true
  pub rcvr : GoType
  pub ins : m.ins ≡ rcvr ∷ t.arg_type ∷ t.reply_type ∷ []
  pub arg : is_exported_or_builtin_type is_upper t.arg_type ≡ true
  pub pointer : is_pointer t.reply_type ≡ true
  pub reply : is_exported_or_builtin_type is_upper t.reply_type ≡ true
  pub out : GoType
  pub outs : m.outs ≡ out ∷ []
  pub error : is_error_type out ≡ true

module _ (is_upper : String → Bool) where
  check_method-IsSuitable :
      (m : Method) (ins outs : List GoType) (t : TMethodType)
      → m.ins ≡ ins
      → m.outs ≡ outs
      → check_method is_upper m ins outs ≡ some t
      → IsSuitable is_upper m t
  unfolding check_method
  check_method-IsSuitable m (rcvr ∷ arg ∷ reply ∷ []) (out ∷ []) t i o h = record {
    method = ground arith;
    pkg_path = ground arith;
    rcvr = rcvr;
    ins = ground arith;
    arg = ground arith;
    pointer = ground arith;
    reply = ground arith;
    out = out;
    outs = o;
    error = ground arith;
  }
  check_method-IsSuitable m ins outs t i o h = absurd (ground arith)

  -- Every method of a table stands under its name and is suitable, and is one of `ms`.
  abbrev AllSuitable : List Method → GoMap String TMethodType → Type 0
  AllSuitable ms found =
      (n : String) (t : TMethodType)
      → lookup n found ≡ some t
      → (m : Method) × Memᴰ m ms × (m.name ≡ n) × IsSuitable is_upper m t

  add_method-AllSuitable :
      (m : Method) (ms : List Method) (o : Option TMethodType) (found : GoMap String TMethodType)
      → Memᴰ m ms
      → ((t : TMethodType) → o ≡ some t → IsSuitable is_upper m t)
      → AllSuitable ms found
      → AllSuitable ms (add_method is_upper m.name o found)
  add_method-AllSuitable m ms none found i s h n u l = h n u l
  add_method-AllSuitable m ms (some t) found i s h n u l = elim (Bool-cases (text_beq m.name n)) [
    | inl e ↦
        (m, i, (text_eq.beq_iff m.name n).0 e, s u (ground (arith, lookup-assign m.name n t found)))
    | inr e ↦ h n u (ground (arith, lookup-assign m.name n t found))
  ]

  suitable_methods-from :
      (all ms : List Method) (found : GoMap String TMethodType)
      → ((m : Method) → Memᴰ m ms → Memᴰ m all)
      → AllSuitable all found
      → AllSuitable all (suitable_methods is_upper ms found)
  unfolding suitable_methods
  suitable_methods-from all [] found i h = h
  suitable_methods-from all (m ∷ rest) found i h =
      suitable_methods-from all rest
        (add_method is_upper m.name (check_method is_upper m m.ins m.outs) found)
        (λ x k. i x (Memᴰ.tail k))
        (add_method-AllSuitable m all (check_method is_upper m m.ins m.outs) found
          (i m (Memᴰ.head refl)) (λ t. check_method-IsSuitable m m.ins m.outs t refl refl) h)

  -- Every method that suitableMethods finds is one of the type's methods, under its own name, and is
  -- suitable: exported, with a receiver, an argument and a reply, both of exported or builtin types
  -- and the reply a pointer, and with an error as its only result.
  pub suitable_methods-IsSuitable :
      (ms : List Method) (n : String) (t : TMethodType)
      → lookup n (suitable_methods is_upper ms []) ≡ some t
      → (m : Method) × Memᴰ m ms × (m.name ≡ n) × IsSuitable is_upper m t
  unfolding lookup
  suitable_methods-IsSuitable ms = suitable_methods-from ms ms [] (λ m i. i) λ n t h. ground arith

-- What register leaves of the registry: as it was, where it returns an error; otherwise with one
-- more service, whose methods are found by their full names if the service's name has no dot.
pub record Registers (services new : Services) (e : Option GoError) : Type 0 where
  pub refused : (x : GoError) → e ≡ some x → new ≡ services
  pub added :
      e ≡ none
      → (sname : String) × (s : TService) × (lookup sname services ≡ none)
        × ((k : String) → lookup k new ≡ (if text_beq sname k then some s else lookup k services))
        × ((n : String) (t : TMethodType)
            → has_dot sname ≡ false
            → lookup n s.method ≡ some t
            → get_service_method new (full_name sname n) ≡ ok (s, t))

get_service_method-full_name :
    (services : Services) (sname n : String) (s : TService) (t : TMethodType)
    → has_dot sname ≡ false
    → lookup sname services ≡ some s
    → lookup n s.method ≡ some t
    → get_service_method services (full_name sname n) ≡ ok (s, t)
unfolding get_service_method
get_service_method-full_name services sname n s t h l k =
    ap
      (λ o. elim o [
        | none ↦
            err (other (text_append "rpc: service/method request ill-formed: " (full_name sname n)))
        | some (a, b) ↦ find_method (lookup a services) b (full_name sname n)
      ])
      (split_dot-full_name sname n h)
    ∙ ap (λ o. find_method o n (full_name sname n)) l
    ∙ ground arith

module _ (is_upper : String → Bool) (methods : GoType → List Method) where
  refuse : (services : Services) (x : GoError) → Registers services services (some x)
  refuse services x = record { refused = λ y h. refl; added = λ h. cc }

  install-Registers :
      (found : GoMap String TMethodType) (sname : String) (typ : GoType) (services : Services)
      → lookup sname services ≡ none
      → let r = install is_upper found methods sname typ services in Registers services r.0 r.1
  unfolding install
  install-Registers [] sname typ services l = refuse services _
  install-Registers (p ∷ rest) sname typ services l = record {
    refused = λ x h. cc;
    added = λ h.
        let s : TService = record { name = sname; typ = typ; method = p ∷ rest } in
        (
          sname,
          s,
          l,
          λ k. lookup-assign sname k s services,
          λ n t d m.
              get_service_method-full_name (assign sname s services) sname n s t d
                (lookup-assign_self sname s services) m,
        );
  }

  if_free-Registers :
      (o : Option TService) (sname : String) (typ : GoType) (services : Services)
      → lookup sname services ≡ o
      → let r = if_free is_upper o methods sname typ services in Registers services r.0 r.1
  unfolding if_free
  if_free-Registers (some s) sname typ services l = refuse services _
  if_free-Registers none sname typ services l =
      install-Registers (suitable_methods is_upper (methods typ) []) sname typ services l

  register_as-Registers :
      (string_of : GoType → String) (typ : GoType) (sname : String) (use_name : Bool)
      (services : Services)
      → let r = register_as is_upper methods string_of typ sname use_name services in
        Registers services r.0 r.1
  unfolding register_as
  register_as-Registers string_of typ sname use_name services =
      elim (Bool-cases (text_beq sname "")) [
        | inl e ↦ rw e (refuse services _)
        | inr e ↦ rw e (elim (Bool-cases (not (is_exported is_upper sname) && not use_name)) [
          | inl f ↦ rw f (refuse services _)
          | inr f ↦ rw f (if_free-Registers (lookup sname services) sname typ services refl)
        ])
      ]

  -- Register and RegisterName change nothing where they return an error. Otherwise they add one
  -- service, whose name was free, and every other name means what it meant; and if that name has no
  -- dot, getSeviceMethod finds each of its methods by "service.method".
  pub register-Registers :
      (string_of : GoType → String) (typ : GoType) (given : Option String) (services : Services)
      → let r = register is_upper methods string_of typ given services in Registers services r.0 r.1
  unfolding register
  register-Registers string_of typ none services =
      register_as-Registers string_of typ (type_name (indirect typ)) false services
  register-Registers string_of typ (some name) services =
      register_as-Registers string_of typ name true services
