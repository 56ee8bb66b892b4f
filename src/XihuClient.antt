-- ===== src/XihuClient.antt =====
-- db/xihu_client.h and db/xihu_common.h: reads and writes of blocks over RPC, with at most
-- `PIPLINE_PKT_DEPTH` requests under way. The RPC library and the server are not here: which pending
-- request completes next is chosen by the steps, and what the server answers is a parameter.
pub mod Sending
pub mod Pipeline
pub mod Missions
pub mod EventLoop
use ycsb_c_copy.Prelude.{
  ℕ, zero, suc, ◌+◌, ◌-◌, ◌%◌, ◌^◌, ◌≡◌, Bool, true, false, List, [], ◌∷◌, ◌++◌, Bytes, ltb, leb,
  ◌==◌, min, if◌then◌else◌,
}
use ycsb_c_copy.Run.{Run, ok, fault, undefined, still_running, ◌>>=◌}

-- `MSG_BUFFER_NUM` and `PIPLINE_PKT_DEPTH`
abbrev pub msg_buffer_num : ℕ
msg_buffer_num = 50

abbrev pub pipeline_pkt_depth : ℕ
pipeline_pkt_depth = 30

pub data MsgType : Type 0 where
  read write : MsgType

-- What a request's buffer holds: the type and the block number of a `CommonMsg`, and the block behind it.
pub record Request : Type 0 where
  pub msg_type : MsgType
  pub bid : ℕ
  pub payload : Bytes

-- The queue `avail` of the free pairs of buffers, the messages in `reqs`, and in `resps` the block
-- number and the block of each answer.
pub record Buffers : Type 0 where
  pub avail : List ℕ
  pub reqs : ℕ → Request
  pub resps : ℕ → ℕ × Bytes

-- `ms` with `avail`, `reqs` and `resps`, the pairs of buffers of the requests under way, the block
-- numbers of all the requests that the mission has enqueued, and the caller's buffer by blocks.
pub record Mission : Type 0 where
  pub msg_type : MsgType
  pub bid : ℕ
  pub nxt : ℕ
  pub tot : ℕ
  pub pip : ℕ
  pub avail : List ℕ
  pub reqs : ℕ → Request
  pub resps : ℕ → ℕ × Bytes
  pub in_flight : List ℕ
  pub sent : List ℕ
  pub buffer : ℕ → Bytes

-- The buffers that a mission leaves to the next one.
abbrev pub buffers_of : Mission → Buffers
buffers_of s = record { avail = s.avail; reqs = s.reqs; resps = s.resps }

-- The message for block `seq` of the mission.
abbrev pub payload_of : Mission → ℕ → Bytes
payload_of s seq = elim s.msg_type [ read ↦ [] | write ↦ s.buffer seq ]

-- `reqs` with the message `r` written into the buffer `k`.
abbrev pub fill : (ℕ → Request) → ℕ → Request → ℕ → Request
fill reqs k r i = if i == k then r else reqs i

-- Takes a free pair of buffers, writes the message into the first and enqueues it; `front` of an empty
-- queue is undefined. `Request.bid` has 32 bits.
unfoldable pub send : ℕ → Mission → Run Mission
send seq s = elim s.avail [
  | [] ↦ fault undefined
  | k ∷ ks ↦ ok (record s {
    avail = ks;
    reqs = fill s.reqs k (record {
      msg_type = s.msg_type;
      bid = (s.bid + seq) % 2 ^ 32;
      payload = payload_of s seq;
    });
    in_flight = s.in_flight ++ k ∷ [];
    sent = s.sent ++ ((s.bid + seq) % 2 ^ 32) ∷ [];
  })
]

-- The first loop of `read` and `write`, by the rounds left; `i` is the loop's variable.
unfoldable pub send_first : ℕ → ℕ → Mission → Run Mission
send_first zero i s = ok s
send_first (suc n) i s = do s' ← send i s; send_first n (i + 1) s'

-- `read` and `write` up to their last loop.
unfoldable pub begin : MsgType → ℕ → ℕ → (ℕ → Bytes) → Buffers → Run Mission
unfolding send_first
begin msg_type block_id len buffer buffers =
    let depth = min pipeline_pkt_depth len in
    send_first depth 0 (record {
      msg_type = msg_type;
      bid = block_id;
      nxt = depth;
      tot = len;
      pip = depth;
      avail = buffers.avail;
      reqs = buffers.reqs;
      resps = buffers.resps;
      in_flight = [];
      sent = [];
      buffer = buffer;
    })

-- The condition of the last loop, under which it goes on.
abbrev pub goes_on : Mission → Bool
goes_on s = ltb s.nxt (s.tot + s.pip)

-- The block that an answer carries goes to its place in the caller's buffer; a place before the
-- buffer's start is undefined.
unfoldable pub store : ℕ → Bytes → Mission → Run Mission
store answered block s =
    if ltb answered s.bid
    then fault undefined
    else ok (record s { buffer = λ i. if i == answered - s.bid then block else s.buffer i })

-- `cont_func` on the pair of buffers `k` of a request that has completed; `s` no longer has it under
-- way.
unfoldable pub cont_func : ℕ → Mission → Run Mission
unfolding store send
cont_func k s =
    let seq = s.nxt % 2 ^ 32 in
    let back : Mission = record s { avail = s.avail ++ k ∷ []; nxt = s.nxt + 1 } in
    let next_of : Mission → Run Mission = λ m. if leb m.tot seq then ok m else send seq m in
    elim s.msg_type [
      | write ↦ next_of back
      | read ↦ store (s.resps k).0 (s.resps k).1 back >>= next_of
    ]

-- The RPC library has put the server's answer to the message in `reqs[k]` into `resps[k]`; `answer`
-- gives the block number and the block that it holds.
abbrev pub deliver : (Request → ℕ × Bytes) → ℕ → Mission → Mission
deliver answer k s = record s { resps = λ i. if i == k then answer (s.reqs k) else s.resps i }

-- One completion, of any request under way.
pub data Completes (answer : Request → ℕ × Bytes) : Mission → Mission → Type 0 where
  complete :
      {s t : Mission} (a b : List ℕ) (k : ℕ)
      → s.in_flight ≡ a ++ k ∷ b
      → cont_func k (deliver answer k (record s { in_flight = a ++ b })) ≡ ok t
      → Completes answer s t

pub data Runs (answer : Request → ℕ × Bytes) : Mission → ℕ → Mission → Type 0 where
  none_left : {s : Mission} → Runs answer s 0 s
  then_one :
      {s t u : Mission} {n : ℕ} → Runs answer s n t → Completes answer t u → Runs answer s (n + 1) u

-- The last loop, when the server answers in the order of the requests, with fuel for its rounds; a loop
-- that waits with nothing under way does not end.
unfoldable pub event_loop : ℕ → (Request → ℕ × Bytes) → Mission → Run Mission
unfolding cont_func
event_loop zero answer s = fault still_running
event_loop (suc fuel) answer s = elim (goes_on s) [
  | false ↦ ok s
  | true ↦ elim s.in_flight [
    | [] ↦ fault still_running
    | k ∷ rest ↦
        cont_func k (deliver answer k (record s { in_flight = rest })) >>= event_loop fuel answer
  ]
]
