-- ===== src/ThreeFinger/ModbusTcp/Header.antt =====
-- The checks on a response: what a header and a response have that pass them.
use ur5_ros.Common.{ℕ, ◌≤◌, ◌≡◌, List, get_or, ◌+◌, arith, ◌%◌, length, ◌++◌, some, Option}
use ur5_ros.Common.Result.{Result, ok, lift}
use ur5_ros.ThreeFinger.ModbusTcp.{check_header, check_pdu, request_frame, check_fields}
use ur5_ros.ThreeFinger.ModbusTcp.System.{Client, read_u16}

pub returned_lift :
    {S E A : Type 0} (r : Result E A) (a : A) (s t : S)
    → ◌≡◌ {A = Option (Result E A × S)} (lift r s) (some (ok a, t))
    → (r ≡ ok a) × (s ≡ t)
returned_lift r a s t h = (cc, cc)

-- A header accepted for a transaction and a unit, which announces a number of bytes.
pub record Accepted (transaction_id unit_id : ℕ) (header : List ℕ) (size : ℕ) : Type 0 where
  pub transaction : read_u16 header 0 ≡ transaction_id
  pub protocol : read_u16 header 2 ≡ 0
  pub unit : get_or header 6 0 ≡ unit_id
  pub announced : read_u16 header 4 ≡ size + 1
  pub lower : 1 ≤ size
  pub upper : size ≤ 253

check_fields-ok :
    (t u a b d e size : ℕ)
    → check_fields t u a b d e ≡ ok size
    → (a ≡ t) × (b ≡ 0) × (d ≡ u) × (e ≡ size + 1) × (1 ≤ size) × (size ≤ 253)
unfolding check_fields
check_fields-ok t u a b d e size h = ground arith

pub check_header-ok :
    (transaction_id unit_id : ℕ) (header : List ℕ) (size : ℕ)
    → check_header transaction_id unit_id header ≡ ok size
    → Accepted transaction_id unit_id header size
unfolding check_header
check_header-ok transaction_id unit_id header size h =
    let (a, b, d, e, l, u) =
      check_fields-ok transaction_id unit_id (read_u16 header 0) (read_u16 header 2)
        (get_or header 6 0) (read_u16 header 4) size h in
    record { transaction = a; protocol = b; unit = d; announced = e; lower = l; upper = u }

pub check_pdu-ok :
    (function : ℕ) (pdu response : List ℕ)
    → check_pdu function pdu ≡ ok response
    → (response ≡ pdu) × (get_or response 0 0 ≡ function)
unfolding check_pdu
check_pdu-ok function pdu response h = ground arith

-- A transaction that returned.
pub record Transacted (pdu : List ℕ) (c : Client) (response : List ℕ) (c' : Client) : Type 0 where
  pub header : List ℕ
  pub accepted : Accepted ((c.transaction_id + 1) % 65536) c.unit_id header (length response)
  pub stream : c.incoming ≡ header ++ (response ++ c'.incoming)
  pub header_length : length header ≡ 7
  pub function : get_or response 0 0 ≡ get_or pdu 0 0
  pub sent : c'.sent ≡ c.sent ++ request_frame ((c.transaction_id + 1) % 65536) c.unit_id pdu
  pub open_kept : c'.is_open ≡ c.is_open
  pub counted : c'.transaction_id ≡ (c.transaction_id + 1) % 65536
