-- ===== src/Engine/Claims/Meaning.antt =====
-- What the claims of a contract forbid, said of each kind of effect alone, beside
-- src/mcp_behaviour_guard/engine.py's construction of the claims.
use mcp_behaviour_guard.Prelude.{
  String, Bool, true, false, ◌≡◌, refl, ◌&&◌, ◌||◌, ◌∙◌, Option, none, some, List, [], ◌∷◌, arith,
  if◌then◌else◌, inl, inr, Bool-cases, contains, ap,
}
use mcp_behaviour_guard.Models.{
  SideEffectKind, same_kind, has_kind, ToolContract, network_request, filesystem_write,
  process_execution, database_write, message_dispatch, credential_access,
}
use mcp_behaviour_guard.Engine.Claims.{
  deny_all, allowlist, EffectClaim, Claims, find_claim, set_claim, add_deny, add_denials,
  allow_existing, ClaimMode, add_allowlist, read_only_kinds, effect_claims,
}

-- A claim forbids every event of the kind, or all but the ones that match a pattern.
pub data Ban : Type 0 where
  everything : Ban
  all_but : List String → Ban

abbrev pub ban_by : ClaimMode → List String → Option Ban
ban_by deny_all patterns = some everything
ban_by allowlist patterns = some (all_but patterns)

abbrev pub ban_of : Option EffectClaim → Option Ban
ban_of none = none
ban_of (some claim) = ban_by claim.mode claim.patterns

same_kind_trans : (a b c : SideEffectKind) → same_kind a b ≡ true → same_kind a c ≡ same_kind b c
same_kind_trans a b c h = ground arith

same_kind-apart :
    (a b c : SideEffectKind) → same_kind a b ≡ false → same_kind a c ≡ true → same_kind b c ≡ false
same_kind-apart a b c e h = ground arith

find_claim-set_claim :
    (kind k : SideEffectKind) (claim : EffectClaim) (claims : Claims)
    → find_claim k (set_claim kind claim claims)
      ≡ (if same_kind kind k then some claim else find_claim k claims)
unfolding set_claim
find_claim-set_claim kind k claim [] = refl
find_claim-set_claim kind k claim ((j, old) ∷ rest) = elim (Bool-cases (same_kind j kind)) [
  | inl e ↦
      rw (e, same_kind_trans j kind k e)
        (elim (Bool-cases (same_kind kind k)) [ inl h ↦ rw h refl | inr h ↦ rw h refl ])
  | inr e ↦
      rw (e, find_claim-set_claim kind k claim rest)
        (elim (Bool-cases (same_kind j k)) [
          | inl h ↦ rw (h, same_kind-apart j kind k e h) refl
          | inr h ↦ rw h refl
        ])
]

-- The ban on a kind, of claims.
abbrev ban : SideEffectKind → Claims → Option Ban
ban kind claims = ban_of (find_claim kind claims)

ban-add_deny :
    (kind k : SideEffectKind) (source : String) (claims : Claims)
    → ban k (add_deny kind source claims)
      ≡ (if same_kind kind k then some everything else ban k claims)
unfolding add_deny
ban-add_deny kind k source claims =
    rw (find_claim-set_claim kind k _ claims)
      (elim (Bool-cases (same_kind kind k)) [ inl h ↦ rw h refl | inr h ↦ rw h refl ])

same_kind_comm : (a b : SideEffectKind) → same_kind a b ≡ same_kind b a
same_kind_comm a b = ground arith

ban-add_denials :
    (kinds : List SideEffectKind) (k : SideEffectKind) (source : String) (claims : Claims)
    → ban k (add_denials kinds source claims)
      ≡ (if has_kind kinds k then some everything else ban k claims)
unfolding add_denials
ban-add_denials [] k source claims = refl
ban-add_denials (kind ∷ kinds) k source claims =
    rw
      (
        ban-add_denials kinds k source (add_deny kind source claims),
        ban-add_deny kind k source claims,
        same_kind_comm k kind,
      )
      (elim (Bool-cases (same_kind kind k)) [
        | inl h ↦
            rw h (elim (Bool-cases (has_kind kinds k)) [ inl e ↦ rw e refl | inr e ↦ rw e refl ])
        | inr h ↦ rw h refl
      ])

-- What an allowlist adds to the ban on its own kind: an empty one forbids all, another has no say
-- where something is forbidden already.
abbrev with_allowlist : Option (List String) → Option Ban → Option Ban
with_allowlist none b = b
with_allowlist (some []) b = some everything
with_allowlist (some (p ∷ ps)) none = some (all_but (p ∷ ps))
with_allowlist (some (p ∷ ps)) (some b) = some b

with_allowlist-ban_by :
    (mode : ClaimMode) (patterns : List String) (p : String) (ps : List String)
    → with_allowlist (some (p ∷ ps)) (ban_by mode patterns) ≡ ban_by mode patterns
with_allowlist-ban_by deny_all patterns p ps = refl
with_allowlist-ban_by allowlist patterns p ps = refl

same_kind→eq : (a b : SideEffectKind) → same_kind a b ≡ true → a ≡ b
same_kind→eq a b h = ground arith

ban-allow_existing :
    (kind k : SideEffectKind) (field_name p : String) (ps : List String)
    (existing : Option EffectClaim) (claims : Claims)
    → find_claim kind claims ≡ existing
    → ban k (allow_existing kind field_name (p ∷ ps) existing claims) ≡ (
        if same_kind kind k then with_allowlist (some (p ∷ ps)) (ban_of existing) else ban k claims)
unfolding allow_existing
ban-allow_existing kind k field_name p ps none claims found =
    rw (find_claim-set_claim kind k _ claims)
      (elim (Bool-cases (same_kind kind k)) [ inl h ↦ rw h refl | inr h ↦ rw h refl ])
ban-allow_existing kind k field_name p ps (some existing) claims found =
    rw (with_allowlist-ban_by existing.mode existing.patterns p ps)
      (elim (Bool-cases (contains existing.sources field_name)) [
        | inl known ↦ rw known (elim (Bool-cases (same_kind kind k)) [
          | inl h ↦ rw (h, ← same_kind→eq kind k h, found) refl
          | inr h ↦ rw h refl
        ])
        | inr new ↦
            rw (new, find_claim-set_claim kind k _ claims)
              (elim (Bool-cases (same_kind kind k)) [ inl h ↦ rw h refl | inr h ↦ rw h refl ])
      ])

ban-add_allowlist :
    (kind k : SideEffectKind) (field_name : String) (values : Option (List String))
    (claims : Claims)
    → ban k (add_allowlist kind field_name values claims)
      ≡ (if same_kind kind k then with_allowlist values (ban k claims) else ban k claims)
unfolding add_allowlist
ban-add_allowlist kind k field_name none claims = elim (Bool-cases (same_kind kind k)) [
  | inl h ↦ rw h refl
  | inr h ↦ rw h refl
]
ban-add_allowlist kind k field_name (some []) claims = ban-add_deny kind k field_name claims
ban-add_allowlist kind k field_name (some (p ∷ ps)) claims =
    ban-allow_existing kind k field_name p ps (find_claim kind claims) claims refl
    ∙ elim (Bool-cases (same_kind kind k)) [
      | inl h ↦ rw (h, same_kind→eq kind k h) refl
      | inr h ↦ rw h refl
    ]

abbrev pub allowlist_of : ToolContract → SideEffectKind → Option (List String)
allowlist_of contract network_request = contract.allowed_network_destinations
allowlist_of contract filesystem_write = contract.allowed_filesystem_writes
allowlist_of contract process_execution = contract.allowed_process_commands
allowlist_of contract _ = none

-- What the contract says of a kind of effect.
abbrev pub denies : ToolContract → SideEffectKind → Bool
denies contract kind =
    contract.read_only && has_kind read_only_kinds kind
    || has_kind contract.forbidden_side_effects kind

abbrev pub contract_ban : ToolContract → SideEffectKind → Option Ban
contract_ban contract kind =
    with_allowlist (allowlist_of contract kind)
      (if denies contract kind then some everything else none)

start_ban :
    (contract : ToolContract) (k : SideEffectKind)
    → ban k (if contract.read_only then add_denials read_only_kinds "read_only" [] else [])
      ≡ (if contract.read_only && has_kind read_only_kinds k then some everything else none)
start_ban contract k = elim (Bool-cases contract.read_only) [
  | inl r ↦ rw r (ban-add_denials read_only_kinds k "read_only" [])
  | inr w ↦ rw w refl
]

-- What the three allowlists make of a ban.
abbrev with_allowlists : ToolContract → SideEffectKind → Option Ban → Option Ban
with_allowlists contract k b =
    let network =
      if same_kind network_request k
      then with_allowlist contract.allowed_network_destinations b
      else b in
    let filesystem =
      if same_kind filesystem_write k
      then with_allowlist contract.allowed_filesystem_writes network
      else network in
    if same_kind process_execution k
    then with_allowlist contract.allowed_process_commands filesystem
    else filesystem

ban_layers :
    (contract : ToolContract) (k : SideEffectKind) (start : Claims)
    → ban k (
        add_allowlist process_execution "allowed_process_commands" contract.allowed_process_commands
          (add_allowlist filesystem_write "allowed_filesystem_writes"
            contract.allowed_filesystem_writes
            (add_allowlist network_request "allowed_network_destinations"
              contract.allowed_network_destinations
              (add_denials contract.forbidden_side_effects "forbidden_side_effects" start))))
      ≡ with_allowlists contract k
          (if has_kind contract.forbidden_side_effects k then some everything else ban k start)
ban_layers contract k start =
    rw
      (
        ban-add_allowlist process_execution k "allowed_process_commands"
            contract.allowed_process_commands,
        ban-add_allowlist filesystem_write k "allowed_filesystem_writes"
            contract.allowed_filesystem_writes,
        ban-add_allowlist network_request k "allowed_network_destinations"
            contract.allowed_network_destinations,
        ban-add_denials contract.forbidden_side_effects k "forbidden_side_effects" start,
      )
      refl

with_allowlists-own :
    (contract : ToolContract) (kind : SideEffectKind) (b : Option Ban)
    → with_allowlists contract kind b ≡ with_allowlist (allowlist_of contract kind) b
with_allowlists-own contract network_request b = refl
with_allowlists-own contract filesystem_write b = refl
with_allowlists-own contract database_write b = refl
with_allowlists-own contract process_execution b = refl
with_allowlists-own contract message_dispatch b = refl
with_allowlists-own contract credential_access b = refl

joined :
    (x y : Bool)
    → (if y then some everything else if x then some everything else none)
      ≡ (if x || y then some everything else none)
joined true true = refl
joined true false = refl
joined false true = refl
joined false false = refl

-- The claim of each kind, on its own: everything is forbidden where the tool is read only and the
-- kind changes state, where the kind is listed as forbidden, or where its allowlist is empty; else
-- all but what its allowlist matches, if there is one; else nothing is claimed.
pub find_claim-effect_claims :
    (contract : ToolContract) (kind : SideEffectKind)
    → ban_of (find_claim kind (effect_claims contract)) ≡ contract_ban contract kind
unfolding effect_claims
find_claim-effect_claims contract kind =
    ban_layers contract kind
      (if contract.read_only then add_denials read_only_kinds "read_only" [] else [])
    ∙ with_allowlists-own contract kind _
    ∙ ap (with_allowlist (allowlist_of contract kind)) (
        rw (start_ban contract kind) (
          joined (contract.read_only && has_kind read_only_kinds kind)
            (has_kind contract.forbidden_side_effects kind)))
