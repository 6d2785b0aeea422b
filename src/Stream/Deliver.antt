-- ===== src/Stream/Deliver.antt =====
-- src/zfgw_datastream.cpp: deliverInOrder.
pub mod Order
use libfgw.Prelude.{
  ℕ, ◌+◌, ◌%◌, ◌^◌, List, [], ◌∷◌, none, some, ◌==◌, if◌then◌else◌, Map, insert, nat_ord, pair_ord,
}
use libfgw.Stream.State.{SessionState, DataStream, Env, session_data, notify}

-- The first loop: the payloads taken, the next expected number, and what stays buffered.
unfoldable pub collect : ℕ → Map ℕ (List ℕ) → List (List ℕ) × ℕ × Map ℕ (List ℕ)
collect expected [] = ([], expected, [])
collect expected ((seq, payload) ∷ m) =
    let (ready, next, left) = collect ((expected + 1) % 2 ^ 32) m in
    if seq == expected then (payload ∷ ready, next, left) else ([], expected, (seq, payload) ∷ m)

-- The second loop: one call for each block that is not empty.
unfoldable pub deliver_blocks : Env → ℕ → ℕ → List (List ℕ) → DataStream → DataStream
unfolding notify
deliver_blocks env handler sid [] s = s
deliver_blocks env handler sid ([] ∷ blocks) s = deliver_blocks env handler sid blocks s
deliver_blocks env handler sid ((b ∷ bs) ∷ blocks) s =
    deliver_blocks env handler sid blocks (notify env (session_data handler sid (b ∷ bs)) s)

-- `st` is the entry of `key` in the session map.
unfoldable pub deliver_in_order : Env → ℕ × ℕ → SessionState → DataStream → DataStream
unfolding collect deliver_blocks
deliver_in_order env key st s = elim st.handler [
  | none ↦ s
  | some handler ↦
      let (ready, next, left) = collect st.expected_rx_seq st.rx_buffer in
      let st' = record st { expected_rx_seq = next; rx_buffer = left } in
      deliver_blocks env handler st.session_id ready
        (record s { sessions = insert key st' s.sessions })
]
