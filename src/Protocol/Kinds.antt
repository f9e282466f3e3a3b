-- ===== src/Protocol/Kinds.antt =====
-- `MessageType` of rdpflux/protocol.py.
use rdpflux.Prelude.{ℕ, Option, none, some, ◌==◌, if◌then◌else◌, ◌≡◌, refl, arith, ◌≤◌}

pub data MessageType : Type 0 where
  hello hello_ack open_request open_result data_frame window_update : MessageType
  half_close close listen listen_result ping pong : MessageType

-- `int(kind)`
unfoldable pub to_int : MessageType → ℕ
to_int hello = 1
to_int hello_ack = 2
to_int open_request = 3
to_int open_result = 4
to_int data_frame = 5
to_int window_update = 6
to_int half_close = 7
to_int close = 8
to_int listen = 9
to_int listen_result = 10
to_int ping = 11
to_int pong = 12

-- `MessageType(raw_kind)`; `none` is the ValueError.
unfoldable pub of_int : ℕ → Option MessageType
of_int n =
    if n == 1
    then some hello
    else if n == 2
    then some hello_ack
    else if n == 3
    then some open_request
    else if n == 4
    then some open_result
    else if n == 5
    then some data_frame
    else if n == 6
    then some window_update
    else if n == 7
    then some half_close
    else if n == 8
    then some close
    else if n == 9
    then some listen
    else if n == 10
    then some listen_result
    else if n == 11
    then some ping
    else if n == 12
    then some pong
    else none

pub of_int-to_int : (k : MessageType) → of_int (to_int k) ≡ some k
unfolding of_int to_int
of_int-to_int hello = refl
of_int-to_int _ = refl

pub to_int-of_int : (n : ℕ) (k : MessageType) → of_int n ≡ some k → to_int k ≡ n
unfolding of_int to_int
to_int-of_int n k e = ground arith

pub to_int-le : (k : MessageType) → to_int k ≤ 12
unfolding to_int
to_int-le hello = omega arith
to_int-le _ = omega arith
