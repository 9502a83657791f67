-- ===== src/Service/Manager/Rotation.antt =====
-- Reconnecting: the rounds on `reconnectCh` go through the enabled connections in turn.
use alkasir.Base.{
  ℕ, zero, suc, ◌+◌, ◌-◌, ◌%◌, ◌≤◌, ◌<◌, ◌≡◌, ◌≢◌, inl, inr, some, List, [], ◌∷◌, ◌++◌, arith, sym,
  ap, ◌∙◌, length, get_elem?, get_elem?_total, ltb, Bool-cases, if◌then◌else◌,
}
use mathlib.Core.List.{Memᴰ}
use native.Mathlib.Nat.{mod-add-mod, add-mod_right, mod-eq_of_lt}
use alkasir.Shared.Connection.{Connection}
use alkasir.Service.Manager.{
  Manager, Message, Action, connect, continue, panic, reconnect, on_reconnect, on_event, on_tick,
  step,
}

abbrev pub next_idx : List Connection → Manager → ℕ
next_idx conns m = (m.current_conn_idx + 1) % length conns

-- With a connection enabled a reconnect starts one, and remembers which.
pub on_reconnect_starts :
    (c : Connection) (cs : List Connection) (m : Manager)
    → (conn : Connection) × (get_elem? (c ∷ cs) (next_idx (c ∷ cs) m) ≡ some conn)
      × (on_reconnect (c ∷ cs) m
          ≡ continue
              (record m { current_conn_idx = next_idx (c ∷ cs) m; current_connection_id = conn.id })
              (connect conn ∷ []))
unfolding on_reconnect
on_reconnect_starts c cs m =
    let (conn, e) = get_elem?_total (c ∷ cs) (next_idx (c ∷ cs) m) (omega arith) in
    (conn, e, rw (e, on_reconnect))

reconnect-ne-panic : (conns : List Connection) (m : Manager) → on_reconnect conns m ≢ panic
reconnect-ne-panic [] m = unfold on_reconnect in ground arith
reconnect-ne-panic (c ∷ cs) m = let (_, _, e) = on_reconnect_starts c cs m in rw e (ground arith)

-- No round panics, whatever the state, the enabled connections and the message: the index that a
-- reconnect computes is in range.
pub step-ne-panic :
    (conns : List Connection) (m : Manager) (msg : Message) → step conns m msg ≢ panic
unfolding step on_event on_tick
step-ne-panic conns m msg = ground (arith, reconnect-ne-panic conns m)

-- What `n` reconnects on end set off, while the same connections stay enabled.
pub reconnects : ℕ → List Connection → Manager → List Action
reconnects zero conns m = []
reconnects (suc n) conns m = elim (step conns m reconnect) [
  | continue m' acts ↦ acts ++ reconnects n conns m'
  | _ ↦ []
]

shift : (i k n : ℕ) → ((i + 1) % suc n + suc k) % suc n ≡ (i + suc (suc k)) % suc n
shift i k n = mod-add-mod (i + 1) (suc n) (suc k) ∙ ap (λ (t : ℕ). t % suc n) (omega arith)

connect_at :
    (k n : ℕ) (c : Connection) (cs : List Connection) (m : Manager) (conn : Connection)
    → k < n
    → get_elem? (c ∷ cs) ((m.current_conn_idx + suc k) % length (c ∷ cs)) ≡ some conn
    → Memᴰ (connect conn) (reconnects n (c ∷ cs) m)
unfolding reconnects step
connect_at k zero c cs m conn h e = elim h [ ]
connect_at zero (suc n) c cs m conn h e =
    let (conn', e', eq) = on_reconnect_starts c cs m in
    rw (reconnects, eq) (Memᴰ.head (let p : conn ≡ conn' = cc (e, e') in ap connect p))
connect_at (suc k) (suc n) c cs m conn h e =
    let (conn', e', eq) = on_reconnect_starts c cs m in
    rw (reconnects, eq)
      (Memᴰ.tail
        (connect_at k n c cs _ conn (omega arith) (rw (shift m.current_conn_idx k (length cs)) e)))

-- The round at which the connection at index `i` comes up, counted from 0.
turn : ℕ → ℕ → ℕ → ℕ
turn n r i = if ltb r i then i - r - 1 else i + n - r - 1

land_before :
    (idx n i : ℕ) → i < suc n → idx % suc n < i → (idx + suc (i - idx % suc n - 1)) % suc n ≡ i
land_before idx n i h lt =
    sym (mod-add-mod idx (suc n) _) ∙ ap (λ (t : ℕ). t % suc n) (omega arith) ∙ mod-eq_of_lt h

land_after :
    (idx n i : ℕ)
    → i < suc n
    → i ≤ idx % suc n
    → idx % suc n < suc n
    → (idx + suc (i + suc n - idx % suc n - 1)) % suc n ≡ i
land_after idx n i h le lt =
    sym (mod-add-mod idx (suc n) _)
    ∙ ap (λ (t : ℕ). t % suc n)
        (let e : idx % suc n + suc (i + suc n - idx % suc n - 1) ≡ i + suc n = omega arith in e)
    ∙ add-mod_right i (suc n)
    ∙ mod-eq_of_lt h

turn_lem :
    (idx n i : ℕ)
    → i < suc n
    → let k = turn (suc n) (idx % suc n) i in (k < suc n) × ((idx + suc k) % suc n ≡ i)
unfolding turn
turn_lem idx n i h = elim (Bool-cases (ltb (idx % suc n) i)) [
  | inl e ↦ rw e (ground arith, land_before idx n i h (ground arith))
  | inr e ↦ rw e (ground arith, land_after idx n i h (ground arith) (omega arith))
]

-- As many reconnects on end as there are enabled connections try each of them, whatever the index
-- was before.
pub reconnects_try_all :
    (c : Connection) (cs : List Connection) (m : Manager) (i : ℕ) (conn : Connection)
    → i < length (c ∷ cs)
    → get_elem? (c ∷ cs) i ≡ some conn
    → Memᴰ (connect conn) (reconnects (length (c ∷ cs)) (c ∷ cs) m)
reconnects_try_all c cs m i conn h e =
    let (below, hit) = turn_lem m.current_conn_idx (length cs) i h in
    connect_at (turn (length (c ∷ cs)) (m.current_conn_idx % length (c ∷ cs)) i) (length (c ∷ cs)) c
      cs m conn below (rw hit e)
