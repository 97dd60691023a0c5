-- ===== src/Assurance/Labels/Disclosure.antt =====
-- `disclosureLabel` on the label of a remote response (packages/core/src/assurance-flow-labels.ts).
use legion_cli.Prelude.{
  ◌≡◌, ◌≢◌, ◌≤◌, ◌⊎◌, inl, inr, refl, ap, subst, false, not, ◌||◌, Option, none, some, List, [],
  ◌∷◌, any, any-eq-false, contains, contains_iff, is_empty, nat_eq, list_eq, Memᴰ, arith,
  Bool-cases,
}
use legion_cli.Text.{Text}
use legion_cli.Attempt.{Attempt, returned, thrown}
use legion_cli.Assurance.Labels.{
  ProvenanceLabel, Confidentiality, LabelError, confidentiality_rank, untrusted, public, sealed,
  join_labels, remote_response_label, is_public, disclosure_label,
}
use legion_cli.Assurance.Labels.Flow.{Flows}
use legion_cli.Assurance.Labels.Lattice.{Joined, bound, over, join_labels-Joined}

public_unsealed :
    (c : Confidentiality) → confidentiality_rank sealed ≤ confidentiality_rank c → c ≢ public
public_unsealed c h e = let f = ap confidentiality_rank e in absurd (omega arith)

-- What flows into a join.
join-Flows :
    (labels : List ProvenanceLabel) (r : Attempt LabelError ProvenanceLabel)
    → Joined labels r
    → (l : ProvenanceLabel) → r ≡ returned l
    → (k : ProvenanceLabel) → Memᴰ k labels
    → Flows k l
join-Flows labels (returned l') (bound l'' b least) l e =
    let same : l' ≡ l = cc in
    subst (λ (x : ProvenanceLabel). (k : ProvenanceLabel) → Memᴰ k labels → Flows k x) same
      ((least l').0
        (record { origins = λ o m. m; integrity = λ i. i; confidentiality = omega arith }))
join-Flows labels (thrown x) (over t) l e = cc

-- A label that is not public becomes public only when all its origins are released.
disclosed :
    (l : ProvenanceLabel) (releases : Option (List Text))
    → l.confidentiality ≢ public
    → (disclosure_label l releases).confidentiality ≡ public
    → (released : List Text) × (releases ≡ some released)
      × ((x : Text) → Memᴰ x l.origins → Memᴰ x released)
unfolding disclosure_label
disclosed l none hidden e = absurd (hidden e)
disclosed l (some released) hidden e = elim (Bool-cases (is_empty released || is_public l)) [
  | inl kept ↦ absurd (hidden (rw (kept, disclosure_label) at e))
  | inr asked ↦ elim (Bool-cases (any (λ origin. not (contains released origin)) l.origins)) [
    | inl withheld ↦ absurd (hidden (rw (asked, withheld, disclosure_label) at e))
    | inr all_released ↦ (
      released,
      refl,
      λ x m.
          let known : not (contains released x) ≡ false =
            (any-eq-false (λ origin. not (contains released origin)) l.origins).0 all_released x
              m in
          (contains_iff released x).0 (ground arith),
    )
  ]
]

-- The label of a remote response becomes public only if every origin of the request, of the control
-- label and the remote's own is among the released origins.
pub remote_response_label-disclosure_label :
    (request control : ProvenanceLabel) (remote_origin : Text) (releases : Option (List Text))
    (l : ProvenanceLabel)
    → remote_response_label request control remote_origin ≡ returned l
    → (disclosure_label l releases).confidentiality ≡ public
    → (released : List Text) × (releases ≡ some released)
      × ((x : Text)
          → Memᴰ x request.origins ⊎ (Memᴰ x control.origins ⊎ (x ≡ remote_origin))
          → Memᴰ x released)
unfolding remote_response_label
remote_response_label-disclosure_label request control remote_origin releases l e shown =
    let remote : ProvenanceLabel = record {
      origins = remote_origin ∷ [];
      integrity = untrusted;
      confidentiality = sealed;
    } in
    let labels : List ProvenanceLabel = request ∷ control ∷ remote ∷ [] in
    let flows = join-Flows labels (join_labels labels) (join_labels-Joined labels) l e in
    let from_request = flows request (Memᴰ.head refl) in
    let from_control = flows control (Memᴰ.tail (Memᴰ.head refl)) in
    let from_remote = flows remote (Memᴰ.tail (Memᴰ.tail (Memᴰ.head refl))) in
    let (released, given, all) =
      disclosed l releases (public_unsealed l.confidentiality from_remote.confidentiality) shown in
    (
      released,
      given,
      λ x m. all x (elim m [
        | inl r ↦ from_request.origins x r
        | inr n ↦ elim n [
          | inl c ↦ from_control.origins x c
          | inr k ↦ from_remote.origins x (Memᴰ.head k)
        ]
      ]),
    )
