-- ===== src/Common/Net.antt =====
-- common/net_proto.c: the frames in which the messages travel: four bytes of length, the highest
-- first, and the text. What the calls of send and recv do is an argument, one step for each call;
-- a connection on which no call returns any more waits.
pub mod Round
pub mod Overrun
use co_write_file_system.Prelude.{
  ℕ, zero, suc, ◌+◌, ◌-◌, ◌*◌, ◌/◌, ◌%◌, ◌^◌, Bool, true, false, List, [], ◌∷◌, ◌++◌, if◌then◌else◌,
  leb, Bytes, length, take, drop,
}

-- EINTR, another error, a call that moves nothing, and one that moves at most so many bytes and one
-- more.
pub data Step : Type 0 where
  interrupted broken closed : Step
  moved : ℕ → Step

pub data End : Type 0 where
  finished : List Step → End
  failed waiting : End

-- The bytes that were moved, and how it ended.
pub record Moved : Type 0 where
  pub bytes : Bytes
  pub result : End

abbrev pub ahead : Bytes → Moved → Moved
ahead sent m = record m { bytes = sent ++ m.bytes }

unfoldable pub send_all : List Step → Bytes → Moved
send_all steps [] = record { bytes = []; result = finished steps }
send_all [] (b ∷ bytes) = record { bytes = []; result = waiting }
send_all (interrupted ∷ steps) (b ∷ bytes) = send_all steps (b ∷ bytes)
send_all (broken ∷ steps) (b ∷ bytes) = record { bytes = []; result = failed }
send_all (closed ∷ steps) (b ∷ bytes) = record { bytes = []; result = failed }
send_all (moved n ∷ steps) (b ∷ bytes) = ahead (b ∷ take n bytes) (send_all steps (drop n bytes))

-- `stream` is what the peer sends before it closes the connection.
unfoldable pub recv_all : List Step → ℕ → Bytes → Moved
recv_all steps zero stream = record { bytes = []; result = finished steps }
recv_all [] (suc len) stream = record { bytes = []; result = waiting }
recv_all (interrupted ∷ steps) (suc len) stream = recv_all steps (suc len) stream
recv_all (broken ∷ steps) (suc len) stream = record { bytes = []; result = failed }
recv_all (closed ∷ steps) (suc len) stream = record { bytes = []; result = failed }
recv_all (moved n ∷ steps) (suc len) [] = record { bytes = []; result = failed }
recv_all (moved n ∷ steps) (suc len) (b ∷ stream) =
    let part = take n (take len stream) in
    ahead (b ∷ part) (recv_all steps (len - length part) (drop (length part) stream))

-- htonl and ntohl.
abbrev pub header : ℕ → Bytes
header len = len / 2 ^ 24 % 256 ∷ len / 2 ^ 16 % 256 ∷ len / 2 ^ 8 % 256 ∷ len % 256 ∷ []

abbrev pub value : Bytes → ℕ
value (a ∷ b ∷ c ∷ d ∷ []) = a * 2 ^ 24 + b * 2 ^ 16 + c * 2 ^ 8 + d
value _ = 0

abbrev pub send_text : Bytes → Bytes → End → Moved
send_text text sent (finished steps) = ahead sent (send_all steps text)
send_text text sent failed = record { bytes = sent; result = failed }
send_text text sent waiting = record { bytes = sent; result = waiting }

-- `uint32_t len = (uint32_t)strlen(json)`.
unfoldable pub net_send_json : List Step → Bytes → Moved
net_send_json steps json =
    let len = length json % 2 ^ 32 in
    let start = send_all steps (header len) in send_text (take len json) start.bytes start.result

-- A message, with what is left of the stream and of the calls. The receiver may also write behind its
-- buffer; C does not define what happens then.
pub data Received : Type 0 where
  message : Bytes → Bytes → List Step → Received
  recv_failed recv_waiting overrun : Received

abbrev pub received_text : Bytes → Moved → End → Received
received_text stream m (finished steps) = message m.bytes (drop (length m.bytes) stream) steps
received_text stream m failed = recv_failed
received_text stream m waiting = recv_waiting

-- The bytes that are written into the buffer: what came, and the NUL when all of it did.
abbrev pub terminator : End → ℕ
terminator (finished steps) = 1
terminator failed = 0
terminator waiting = 0

abbrev pub written_size : Moved → ℕ
written_size m = length m.bytes + terminator m.result

-- Into a buffer of `size` bytes.
abbrev pub buffered : ℕ → Bytes → Moved → Received
buffered size stream m =
    if leb (written_size m) size then received_text stream m m.result else overrun

-- `malloc(len + 1)`: the sum is of 32 bits.
abbrev pub buffer_size : ℕ → ℕ
buffer_size len = (len + 1) % 2 ^ 32

module _ (alloc : ℕ → Bool) where
  abbrev pub received_header : Bytes → Moved → End → Received
  received_header stream m (finished steps) =
      let len = value m.bytes in
      let rest = drop (length m.bytes) stream in
      let text = recv_all steps len rest in
      if alloc (buffer_size len) then buffered (buffer_size len) rest text else recv_failed
  received_header stream m failed = recv_failed
  received_header stream m waiting = recv_waiting

  unfoldable pub net_recv_json : List Step → Bytes → Received
  net_recv_json steps stream =
      let start = recv_all steps 4 stream in received_header stream start start.result
