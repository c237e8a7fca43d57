-- ===== src/Applications/Tenants/Urls.antt =====
-- The tenant that `select_tenant` takes from the path of a request.
use scim2_server.Base.Dict
use scim2_server.Base.Dict.{Dict, get-put}
use scim2_server.Service.{or_empty}
use scim2_server.Applications.{partition}
use scim2_server.Applications.Wsgi.{WsgiEnvironment, variable}
use scim2_server.Base.{
  nat_beq_iff, ℕ, ◌≡◌, refl, sym, ap, ◌∙◌, subst, inl, inr, true, false, Option, none, some, [],
  ◌∷◌, ◌++◌, arith, Bool-cases, ◌==◌, ==_refl, nat_eq, Text, text_eq, option_text_eq, codes,
  nat_beq, text_beq, ◌⊎◌,
}
use scim2_server.Applications.Tenants.{
  is_valid_tenant, set_variable, mounted, mount_first, select_tenant,
}

-- What `partition` returns is the text.
partition-append :
    (c : ℕ) (text : Text)
    → (partition c text).0 ++ ((partition c text).1 ++ (partition c text).2) ≡ text
unfolding partition
partition-append c [] = refl
partition-append c (d ∷ text) = elim (Bool-cases (nat_beq d c)) [
  | inl e ↦ rw (e, partition) (ap (λ x. x ∷ text) (sym ((nat_beq_iff d c).0 e)))
  | inr e ↦ rw (e, partition) (ap (λ x. d ∷ x) (partition-append c text))
]

partition-slash : (path : Text) → (partition b'/' (b'/' ∷ path)).2 ≡ path
unfolding partition
partition-slash path = refl

append_assoc : (xs ys zs : Text) → (xs ++ ys) ++ zs ≡ xs ++ (ys ++ zs)
append_assoc [] ys zs = refl
append_assoc (x ∷ xs) ys zs = ap (λ ws. x ∷ ws) (append_assoc xs ys zs)

variable-set :
    (environ : WsgiEnvironment) (name value : Text)
    → variable (set_variable name value environ) name ≡ value
variable-set environ name value =
    ap or_empty {y = some value}
      (get-put environ.variables name value name ∙ ground (arith, ==_refl name))

variable-set_other :
    (environ : WsgiEnvironment) (name value other_name : Text)
    → (name == other_name) ≡ false
    → variable (set_variable name value environ) other_name ≡ variable environ other_name
variable-set_other environ name value other_name different =
    ap or_empty {y = Dict.get environ.variables other_name}
      (get-put environ.variables name value other_name ∙ ground (arith, different))

-- The URL path of a request: the mount prefix, then the path behind it.
abbrev pub url_path : WsgiEnvironment → Text
url_path environ = variable environ (codes "SCRIPT_NAME") ++ variable environ (codes "PATH_INFO")

mounted-script :
    (environ : WsgiEnvironment) (tenant path : Text)
    → variable (mounted environ tenant path) (codes "SCRIPT_NAME")
      ≡ variable environ (codes "SCRIPT_NAME") ++ (b'/' ∷ tenant)
unfolding text_beq
mounted-script environ tenant path =
    let script = variable environ (codes "SCRIPT_NAME") ++ (b'/' ∷ tenant) in
    variable-set_other (set_variable (codes "SCRIPT_NAME") script environ) (codes "PATH_INFO") path
      (codes "SCRIPT_NAME") refl
    ∙ variable-set environ (codes "SCRIPT_NAME") script

mounted-url :
    (environ : WsgiEnvironment) (tenant path : Text)
    → url_path (mounted environ tenant path)
      ≡ variable environ (codes "SCRIPT_NAME") ++ (b'/' ∷ (tenant ++ path))
mounted-url environ tenant path =
    let script = variable environ (codes "SCRIPT_NAME") in
    ap (λ x. x ++ variable (mounted environ tenant path) (codes "PATH_INFO"))
      (mounted-script environ tenant path)
    ∙ ap (λ x. (script ++ (b'/' ∷ tenant)) ++ x)
        (variable-set (set_variable (codes "SCRIPT_NAME") (script ++ (b'/' ∷ tenant)) environ)
          (codes "PATH_INFO") path)
    ∙ append_assoc script (b'/' ∷ tenant) path

-- What a selected tenant means for the environment of its application.
pub record IsMounted (environ environ' : WsgiEnvironment) (tenant : Text) : Type 0 where
  pub valid : is_valid_tenant tenant ≡ true
  pub script :
      variable environ' (codes "SCRIPT_NAME")
      ≡ variable environ (codes "SCRIPT_NAME") ++ (b'/' ∷ tenant)
  pub same_url : url_path environ' ≡ url_path environ

-- No tenant is selected, and the environment is as it was; or one is.
abbrev pub Selection : WsgiEnvironment → Option Text × WsgiEnvironment → Type 0
Selection environ selected =
    (selected ≡ (none, environ))
    ⊎ (tenant : Text) × (selected.0 ≡ some tenant) × IsMounted environ selected.1 tenant

mount_first-Selection :
    (environ : WsgiEnvironment) (parts : Text × Text × Text) (path : Text)
    → variable environ (codes "PATH_INFO") ≡ b'/' ∷ path
    → parts.0 ++ (parts.1 ++ parts.2) ≡ path
    → Selection environ (mount_first environ parts)
mount_first-Selection environ (tenant, separator, rest) path e whole =
    elim (Bool-cases (is_valid_tenant tenant)) [
      | inr invalid ↦ rw invalid (inl refl)
      | inl valid ↦ rw valid (
          inr (
            tenant,
            refl,
            record {
              valid = valid;
              script = mounted-script environ tenant (separator ++ rest);
              same_url =
                  mounted-url environ tenant (separator ++ rest)
                  ∙ ap (λ x. variable environ (codes "SCRIPT_NAME") ++ (b'/' ∷ x)) whole
                  ∙ ap (λ x. variable environ (codes "SCRIPT_NAME") ++ x) (sym e);
            },
          ))
    ]

-- For a request whose path starts with a slash, `select_tenant` either selects no tenant and leaves the environment as it is, or it selects a
-- valid tenant, adds it to the mount prefix of the application, and leaves the URL path, which is the prefix and the path together, as it was.
pub select_tenant-Selection :
    (environ : WsgiEnvironment) (path : Text)
    → variable environ (codes "PATH_INFO") ≡ b'/' ∷ path
    → Selection environ (select_tenant environ)
unfolding select_tenant
select_tenant-Selection environ path e =
    subst (λ p. Selection environ (mount_first environ (partition b'/' p)))
      (sym (ap (λ x. (partition b'/' x).2) e ∙ partition-slash path))
      (mount_first-Selection environ (partition b'/' path) path e (partition-append b'/' path))
