-- ===== src/Collab/Agents.antt =====
-- The agents of a collaboration in src/collab.rs, and who is sent a message at its start.
use shuttle_rs.Prelude.{
  ℕ, String, ◌≡◌, refl, Option, some, List, [], ◌∷◌, ◌++◌, ◌+◌, false, not, ◌&&◌, str_eq, trim, any,
  map, retain, All, All-append, is_empty, if◌then◌else◌, if_cases, and_then, arith,
}
use shuttle_rs.Crates.{Crates, field}
use shuttle_rs.Core.{Event, Stamp}
use shuttle_rs.Message.{new_message}
use shuttle_rs.Collab.Events.{
  normalize_from, normalized_agents, or_default, start_messages, start_events,
}

-- Names that are not empty, each of them once.
abbrev pub IsListed : List String → Type 0
IsListed [] = Unit
IsListed (name ∷ names) =
    (str_eq name "" ≡ false) × All (λ other. str_eq name other ≡ false) names × IsListed names

IsListed-append :
    (names : List String) (new : String)
    → str_eq new "" ≡ false
    → any (λ name. str_eq name new) names ≡ false
    → IsListed names
    → IsListed (names ++ new ∷ [])
IsListed-append [] new e h k = (e, tt, tt)
IsListed-append (name ∷ names) new e h k =
    let apart : str_eq name new ≡ false = ground arith in
    let rest : any (λ name. str_eq name new) names ≡ false = ground arith in
    (
      k.0,
      All-append (λ other. str_eq name other ≡ false) names (new ∷ []) k.1 (apart, tt),
      IsListed-append names new e rest k.2,
    )

normalize_from-IsListed :
    (normalized agents : List String)
    → IsListed normalized
    → IsListed (normalize_from normalized agents)
unfolding normalize_from
normalize_from-IsListed normalized [] h = h
normalize_from-IsListed normalized (name ∷ rest) h =
    let agent = trim name in
    let fresh = not (str_eq agent "") && not (any (λ existing. str_eq existing agent) normalized) in
    normalize_from-IsListed (if fresh then normalized ++ agent ∷ [] else normalized) rest (
      if_cases IsListed fresh (normalized ++ agent ∷ []) normalized
        (λ e. IsListed-append normalized agent (ground arith) (ground arith) h) (λ _. h))

-- Whatever names are given, a collaboration has at least one agent, no agent with an empty name, and
-- no agent twice.
pub normalized_agents-IsListed :
    (agents : List String)
    → IsListed (normalized_agents agents) × (is_empty (normalized_agents agents) ≡ false)
unfolding normalized_agents
normalized_agents-IsListed agents =
    go (normalize_from [] agents) (normalize_from-IsListed [] agents tt)
  where
    go :
        (l : List String) → IsListed l → IsListed (or_default l) × (is_empty (or_default l) ≡ false)
    go [] h = ((refl, (refl, tt), (refl, tt, tt)), refl)
    go (agent ∷ names) h = (h, refl)

module _ (c : Crates) where
  -- `metadata_json["to"]`, as a text
  abbrev pub recipient : Event c.Value → Option String
  recipient e = and_then (c.get e.metadata_json "to") c.as_str

  start_messages-recipients :
      (stamps : ℕ → Stamp) (k : ℕ) (workspace from session content : String) (agents : List String)
      → map recipient (start_messages c stamps k workspace from session content agents)
        ≡ map some agents
  unfolding start_messages new_message field
  start_messages-recipients stamps k workspace from session content [] = refl
  start_messages-recipients stamps k workspace from session content (agent ∷ agents) =
      let rest = start_messages-recipients stamps (k + 1) workspace from session content agents in
      simp (c.get-object, c.as_str-text, rest)

  -- The messages that start a collaboration go to its agents in order, one to each, but not to the
  -- agent who starts it.
  pub start_events-recipients :
      (stamps : ℕ → Stamp) (workspace from session content : String) (agents : List String)
      → map recipient (start_events c stamps workspace from session content agents).messages
        ≡ map some (retain (λ agent. not (str_eq agent from)) (normalized_agents agents))
  unfolding start_events
  start_events-recipients stamps workspace from session content agents =
      start_messages-recipients stamps 1 workspace from session content _
