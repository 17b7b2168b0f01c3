-- ===== src/Connections/Laws.antt =====
-- What connectionManager.ts promises: one socket for a station, and the connected stations.
use pvpentech_core.Common.{
  ℕ, ◌≡◌, ◌≢◌, ◌⊎◌, inl, inr, refl, ap, Option, ◌==◌, ==_iff, Bool-cases, lookup, if◌then◌else◌,
  String, List, [], ◌∷◌, none, some, arith, str_eq, lookup-insert,
}
use pvpentech_core.Connections.{
  Connections, SocketCall, replace_calls, close_replaced, terminate_later, get, register,
}

-- What is asked of the socket that was there before the new one.
abbrev pub IsReplaced : Option ℕ → ℕ → List SocketCall → Type 0
IsReplaced before ws calls =
    (((before ≡ none) ⊎ (before ≡ some ws)) × (calls ≡ []))
    ⊎ ((old : ℕ) × (before ≡ some old)
        × (old ≢ ws)
        × (calls ≡ close_replaced old ∷ terminate_later old ∷ []))

replace_calls-IsReplaced :
    (before : Option ℕ) (ws : ℕ) → IsReplaced before ws (replace_calls before ws)
replace_calls-IsReplaced none ws = inl (inl refl, refl)
replace_calls-IsReplaced (some old) ws = elim (Bool-cases (old == ws)) [
  | inl e ↦ inl (inr (ap some ((==_iff old ws).0 e)), ground arith)
  | inr e ↦ inr (old, refl, λ h. ground arith, ground arith)
]

-- After `register` the station's socket is the new one and every other station keeps its own. A
-- different socket that was there before is closed, and terminated later if it does not close;
-- nothing is asked of any other socket.
pub register_lem :
    (station other : String) (ws : ℕ) (m : Connections)
    → (get other (register station ws m).0
        ≡ (if str_eq station other then some ws else get other m))
      × IsReplaced (get station m) ws (register station ws m).1
unfolding register get
register_lem station other ws m =
    (lookup-insert station other ws m, replace_calls-IsReplaced (lookup station m) ws)
