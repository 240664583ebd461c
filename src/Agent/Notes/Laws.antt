-- ===== src/Agent/Notes/Laws.antt =====
-- agent.go: the notes that stay on the calls that SetTranscript leaves pending.
use agentturn.Base.{
  ℕ, zero, suc, ◌+◌, ◌<◌, Bool, true, false, List, [], ◌∷◌, Option, none, some, String,
  String-Comparable, if◌then◌else◌, contains, any, length, ◌≡◌, refl, arith, Bool-cases, List-cases,
  inl, inr, ◌⊎◌, append-nil,
}
use agentturn.Loop.{Note, PendingCall}
use agentturn.Loop.Pending.{id_of}
use agentturn.Agent.Notes.{all_notes, known_ids, last_known, without_notes, write_notes, keep_notes}

abbrev pub is_known : List PendingCall → PendingCall → Bool
is_known known p = contains (known_ids known) (id_of p.call)

-- Where the loop ends: at one of the calls that are known, if there is one.
last_known_cases :
    (ids : List String) (i : ℕ) (last : Option ℕ) (pending : List PendingCall)
    → ((any (λ p. contains ids (id_of p.call)) pending ≡ false)
        × (last_known ids i last pending ≡ last))
      ⊎ ((any (λ p. contains ids (id_of p.call)) pending ≡ true)
          × (k : ℕ) × (last_known ids i last pending ≡ some (i + k))
          × (k < length pending))
unfolding last_known
last_known_cases ids i last [] = inl (refl, refl)
last_known_cases ids i last (p ∷ pending) = elim (Bool-cases (contains ids (id_of p.call))) [
  | inl e ↦ elim (last_known_cases ids (suc i) (some i) pending) [
    | inl (none_more, at_end) ↦
        inr (ground (arith, e), zero, ground (arith, e, at_end), omega arith)
    | inr (more, k, found, below) ↦
        inr (ground (arith, e), suc k, ground (arith, e, found), omega (arith, below))
  ]
  | inr e ↦ elim (last_known_cases ids (suc i) last pending) [
    | inl (none_more, at_end) ↦ inl (ground (arith, e, none_more), ground (arith, e, at_end))
    | inr (more, k, found, below) ↦
        inr (ground (arith, e, more), suc k, ground (arith, e, found), omega (arith, below))
  ]
]

all_notes-without_notes : (pending : List PendingCall) → all_notes (without_notes pending) ≡ []
unfolding all_notes
all_notes-without_notes [] = refl
all_notes-without_notes (p ∷ pending) = all_notes-without_notes pending

all_notes-write_notes :
    (k : ℕ) (notes : List Note) (pending : List PendingCall)
    → k < length pending
    → all_notes (write_notes k notes (without_notes pending)) ≡ notes
unfolding all_notes write_notes
all_notes-write_notes k notes [] h = absurd (omega arith)
all_notes-write_notes zero notes (p ∷ pending) h =
    rw (all_notes-without_notes pending) (append-nil notes)
all_notes-write_notes (suc k) notes (p ∷ pending) h =
    all_notes-write_notes k notes pending (omega arith)

-- The notes held before stay, each once and in order, when a call they were held with is among those
-- pending now, and are dropped otherwise.
pub all_notes-keep_notes :
    (pending known : List PendingCall)
    → all_notes (keep_notes pending known)
      ≡ (if any (is_known known) pending then all_notes known else [])
unfolding keep_notes
all_notes-keep_notes pending known = elim (last_known_cases (known_ids known) 0 none pending) [
  | inl (gone, e) ↦ ground (arith, gone, e, all_notes-without_notes pending)
  | inr (stays, k, e, below) ↦ elim (List-cases (all_notes known)) [
    | inl m ↦ ground (arith, stays, e, m, all_notes-without_notes pending)
    | inr (n, ns, m) ↦
        ground (arith, stays, e, m, all_notes-write_notes k (all_notes known) pending below)
  ]
]
