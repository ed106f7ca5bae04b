-- ===== src/Engine/Discovery.antt =====
-- That src/mcp_behaviour_guard/engine.py discovers the tools where one identity can.
use mcp_behaviour_guard.Prelude.{
  ap, sym, ◌∙◌, String, true, ◌≡◌, refl, List, [], ◌∷◌, Option, none, some, arith,
}
use mathlib.Core.List.{Memᴰ}
use mcp_behaviour_guard.Json.{Fields}
use mcp_behaviour_guard.Models.{IdentitySpec}
use mcp_behaviour_guard.Engine.State.{
  ◌>>=◌, GuardEngine, EngineState, Guard, ◌>>◌, return, change, outside_call, Raised, done,
}
use mcp_behaviour_guard.Engine.Drift.{is_some}
use mcp_behaviour_guard.Engine.Run.{discover_as, discover_tools}

module _ {World : Type 0} (guard : GuardEngine World) where
  -- Tools were found, and nothing was reported.
  abbrev pub Discovered : EngineState World → Raised (List Fields) × EngineState World → Type 0
  Discovered before after =
      (after.1.discovery_ok ≡ true)
      × (after.1.findings ≡ before.findings)
      × ((tools : List Fields) × (after.0 ≡ done tools))

  abbrev answer_or : Guard World (List Fields) → Option (List Fields) → Guard World (List Fields)
  answer_or others tools = elim tools [
    | none ↦ others
    | some found ↦ change (λ s. record s { discovery_ok = true }) >> return found
  ]

  answer_or-Discovered :
      (others : Guard World (List Fields)) (tools : Option (List Fields)) (s : EngineState World)
      → (tools ≡ none → Discovered s (others.run s))
      → Discovered s ((answer_or others tools).run s)
  unfolding change return ◌>>=◌
  answer_or-Discovered others none s h = h refl
  answer_or-Discovered others (some tools) s h = (refl, refl, (tools, refl))

  no_answer : (tools : Option (List Fields)) → tools ≡ none → is_some tools ≡ true → ⊥
  no_answer none missing answered = ground arith
  no_answer (some tools) missing answered = ground arith

  discover_as-Discovered :
      (name : String) (identity : IdentitySpec) (identities : List (String × IdentitySpec))
      → Memᴰ (name, identity) identities
      → ((w : World) → is_some (guard.outside.list_tools name w).0 ≡ true)
      → (s : EngineState World) → Discovered s ((discover_as guard identities).run s)
  unfolding discover_as ◌>>=◌ outside_call
  discover_as-Discovered name identity [] m answers s = elim m [ ]
  discover_as-Discovered name identity (entry ∷ rest) (Memᴰ.head e) answers s =
      let answered : is_some (guard.outside.list_tools entry.0 s.world).0 ≡ true =
        ap (λ n. is_some (guard.outside.list_tools n s.world).0) (sym (ap (λ p. p.0) e))
        ∙ answers s.world in
      answer_or-Discovered (discover_as guard rest) (guard.outside.list_tools entry.0 s.world).0
        (record s { world = (guard.outside.list_tools entry.0 s.world).1 })
        (λ missing. absurd (no_answer _ missing answered))
  discover_as-Discovered name identity (entry ∷ rest) (Memᴰ.tail m) answers s =
      answer_or-Discovered (discover_as guard rest) (guard.outside.list_tools entry.0 s.world).0
        (record s { world = (guard.outside.list_tools entry.0 s.world).1 })
        (λ missing. discover_as-Discovered name identity rest m answers _)

-- Where one identity of the contract gets its tools listed whenever it asks, whatever the others do,
-- the discovery ends with a list of tools, without an exception, marks itself as done, and reports
-- nothing.
pub discover_tools-Discovered :
    {World : Type 0} (guard : GuardEngine World) (name : String) (identity : IdentitySpec)
    → Memᴰ (name, identity) guard.contract.identities
    → ((w : World) → is_some (guard.outside.list_tools name w).0 ≡ true)
    → (s : EngineState World) → Discovered guard s ((discover_tools guard).run s)
unfolding discover_tools
discover_tools-Discovered guard name identity =
    discover_as-Discovered guard name identity guard.contract.identities
