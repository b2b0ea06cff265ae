-- ===== src/Receivers/Includes.antt =====
-- filelog_receiver.go: which files a tenant's receiver reads.
use telemetry_controller.Prelude.{
  String, ◌≡◌, ◌≢◌, ◌↔◌, ◌⊎◌, refl, sym, false≢true, lookup, some, ap, ◌∙◌, inl, inr, Bool, true,
  false, not, List, [], ◌∷◌, map, keep, In, Bool-cases, string_eq, ◌==◌, ◌⧺◌, if◌then◌else◌,
  ne_of_beq, beq_ne,
}
use telemetry_controller.Receivers.{create_include_list, generate_default_kubernetes_receiver}
use telemetry_controller.Values.{texts}
use telemetry_controller.Api.{Tenant}

abbrev pub files_of : String → String
files_of ns = "/var/log/pods/" ⧺ ns ⧺ "_*/*/*.log"

selected : List String → List String
selected namespaces = map files_of (keep (λ ns. not (ns == "")) namespaces)

selected-In :
    (p : String) (namespaces : List String)
    → In p (selected namespaces)
    → (ns : String) × In ns namespaces × (ns ≢ "") × (p ≡ files_of ns)
unfolding selected
selected-In p [] h = elim h [ ]
selected-In p (n ∷ ns) h = step (n == "") refl (selected-In p ns) h
  where
    Source : List String → Type 0
    Source ms = (m : String) × In m ms × (m ≢ "") × (p ≡ files_of m)

    later : Source ns → Source (n ∷ ns)
    later (m, k, named, e) = (m, inr k, named, e)

    step :
        (b : Bool)
        → (n == "") ≡ b
        → (In p (selected ns) → Source ns)
        → In p (
            map files_of
              (if not b then n ∷ keep (λ m. not (m == "")) ns else keep (λ m. not (m == "")) ns))
        → Source (n ∷ ns)
    step true e rest k = later (rest k)
    step false e rest (inl q) = (n, inl refl, ne_of_beq n "" e, q)
    step false e rest (inr k) = later (rest k)

In-selected :
    (ns : String) (namespaces : List String)
    → In ns namespaces
    → ns ≢ ""
    → In (files_of ns) (selected namespaces)
unfolding selected
In-selected ns [] h named = elim h [ ]
In-selected ns (n ∷ rest) (inl e) named =
    rw (beq_ne n "" (λ q. named (e ∙ q))) (inl (ap files_of e))
In-selected ns (n ∷ rest) (inr h) named = elim (Bool-cases (n == "")) [
  | inl empty ↦ rw empty (In-selected ns rest h named)
  | inr other ↦ rw other (inr (In-selected ns rest h named))
]

create_include_list-In :
    (p : String) (namespaces : List String)
    → In p (create_include_list namespaces false)
      ↔ ((ns : String) × In ns namespaces × (ns ≢ "") × (p ≡ files_of ns))
unfolding create_include_list selected
create_include_list-In p namespaces =
    (selected-In p namespaces, λ (ns, h, named, e). rw e (In-selected ns namespaces h named))

-- The files of all pods, or those of the pods of a namespace that has a name.
abbrev pub IsIncluded : Tenant → List String → String → Type 0
IsIncluded t namespaces p =
    ((let spec = t.spec in spec.select_from_all_namespaces ≡ true)
      × (p ≡ "/var/log/pods/*/*/*.log"))
    ⊎ ((let spec = t.spec in spec.select_from_all_namespaces ≡ false)
        × ((ns : String) × In ns namespaces × (ns ≢ "") × (p ≡ files_of ns)))

-- The receiver of a tenant includes the files of all pods and no others if the tenant selects from
-- all namespaces; if not, those of the pods of each of the given namespaces that has a name and no
-- others, so none if none is given.
pub receiver_includes :
    (namespaces : List String) (dry_run_mode : Bool) (t : Tenant)
    → (ps : List String) × (lookup "include"
          (generate_default_kubernetes_receiver namespaces dry_run_mode t)
        ≡ some (texts ps))
      × ((p : String) → In p ps ↔ IsIncluded t namespaces p)
unfolding generate_default_kubernetes_receiver create_include_list lookup
receiver_includes namespaces dry_run_mode t = (
  create_include_list namespaces t.spec.select_from_all_namespaces,
  refl,
  λ p. elim (Bool-cases t.spec.select_from_all_namespaces) [
    | inl all ↦ rw all (
      λ h. inl (refl, elim h [ inl e ↦ e | inr q ↦ absurd q ]),
      λ h. elim h [ inl (q, e) ↦ inl e | inr (q, r) ↦ absurd (false≢true (sym q)) ],
    )
    | inr some_only ↦
        let listed = create_include_list-In p namespaces in
        rw some_only (
          λ h. inr (refl, listed.0 h),
          λ h. elim h [ inl (q, r) ↦ absurd (false≢true q) | inr (q, x) ↦ listed.1 x ],
        )
  ],
)
