-- ===== src/Queue/Tokens.antt =====
-- The tokens of submissions: `encode_token` and the checks of `wait`.
use iom.Base.{
  ltb, ◌==◌, if◌then◌else◌, mul_word, invalid_argument, ok, throws, ℕ, ◌+◌, ◌*◌, ◌/◌, ◌^◌, ◌≤◌, ◌<◌,
  bit_and, ◌≡◌, not, ◌&&◌, arith,
}
use iom.Base.Packed.{bit_or_fields, bit_and_low}
use iom.Queue.{
  DeviceOps, encode_token, wait_sequence, is_skipped, max_sequence, sequence_bits, sequence_mask,
}

-- The ids that `lease_queue_id` gives.
abbrev pub IsQueueId : ℕ → Type 0
IsQueueId id = (0 < id) × (id ≤ 255)

-- The two fields of a token.
encode_token_fields :
    (q : DeviceOps) (s : ℕ)
    → IsQueueId q.queue_id
    → s ≤ max_sequence
    → encode_token q s ≡ q.queue_id * 2 ^ 55 + s
unfolding encode_token
encode_token_fields q s (pos, small) h =
    let shifted : mul_word q.queue_id (2 ^ sequence_bits) ≡ q.queue_id * 2 ^ 55 = omega arith in
    rw shifted (bit_or_fields 55 q.queue_id s (omega arith))

-- For a queue id from 1 to 255 and a sequence from 1 to the greatest, the token that a queue
-- encodes passes the checks of `wait` on a queue exactly if that has the same id and the
-- sequence is below its next one and not skipped, and then yields the sequence; else they throw
-- `invalid_argument`.
pub wait_sequence-encode_token :
    (q r : DeviceOps) (s : ℕ)
    → IsQueueId q.queue_id
    → 0 < s
    → s ≤ max_sequence
    → wait_sequence r (encode_token q s) ≡ (
        if q.queue_id == r.queue_id && ltb s r.next_sequence && not (is_skipped r s)
        then ok s
        else throws invalid_argument)
unfolding wait_sequence
wait_sequence-encode_token q r s (pos, small) hs high =
    let fields = encode_token_fields q s (pos, small) high in
    let id : (q.queue_id * 2 ^ 55 + s) / 2 ^ sequence_bits ≡ q.queue_id = omega arith in
    let low : bit_and (q.queue_id * 2 ^ 55 + s) sequence_mask ≡ s =
      bit_and_low 55 q.queue_id s (omega arith) in
    rw (fields, id, low) (ground arith)
