-- ===== src/Plugin/Message.antt =====
-- The DNS messages that the handler writes (github.com/miekg/dns and CoreDNS are not part of the
-- repository): the fields that it sets. The class of every record is IN, its type the constructor.
use valon.Prelude.{ℕ, Bool, true, Option, List, Bytes}

-- Name, TTL, and the content. A nil address is `none`.
pub data ResourceRecord : Type 0 where
  a : Bytes → ℕ → Option Bytes → ResourceRecord
  srv : Bytes → ℕ → ℕ → ℕ → ℕ → Bytes → ResourceRecord
  cname : Bytes → ℕ → Bytes → ResourceRecord

pub record Msg : Type 0 where
  pub rcode : ℕ
  pub authoritative : Bool
  pub answer : List ResourceRecord
  pub extra : List ResourceRecord

abbrev pub type_a : ℕ
type_a = 1

abbrev pub type_srv : ℕ
type_srv = 33

abbrev pub rcode_success : ℕ
rcode_success = 0

abbrev pub rcode_name_error : ℕ
rcode_name_error = 3

-- What `state.Name()` and `state.QType()` return of the request.
pub record Query : Type 0 where
  pub name : Bytes
  pub qtype : ℕ

-- The message written with the code returned, or the query handed to the next plugin.
pub data Served : Type 0 where
  wrote : Msg → ℕ → Served
  passed_on : Served

-- a reply after `SetReply` and `Authoritative = true`
abbrev pub reply : List ResourceRecord → List ResourceRecord → Msg
reply answer extra = record {
  rcode = rcode_success;
  authoritative = true;
  answer = answer;
  extra = extra;
}
