-- ===== src/Ctl/DdnsDelete.antt =====
-- valonctl/pkg/client/etcd.go, callDDNSDelete, and the endpoint that NewEtcdClient gives it.
-- net/http and encoding/json are not part of the repository: `send` makes and sends a request of a
-- method, a URL and a body, and gives the status code of the response, or none for an error of
-- either; `marshal` makes the body for a key.
use valon.Prelude.{
  ℕ, Bool, true, false, not, Option, none, some, [], ◌++◌, Bytes, codes, if◌then◌else◌, ◌==◌, ◌≟◌,
}

pub data DdnsError : Type 0 where
  send_failed : DdnsError
  returned_status : ℕ → DdnsError

delete_error : Option ℕ → Option DdnsError
delete_error none = some send_failed
delete_error (some code) = if not (code == 200) then some (returned_status code) else none

abbrev is_nil : Option DdnsError → Bool
is_nil none = true
is_nil (some x) = false

module _ {S Body : Type 0} (send : Bytes → Bytes → Body → S → Option ℕ × S)
    (marshal : Bytes → Body) where
  unfoldable pub call_ddns_delete : Bytes → Bytes → S → Option DdnsError × S
  unfolding delete_error
  call_ddns_delete ddns_endpoint pubkey s =
      let url = ddns_endpoint ++ codes "/api/endpoint/delete" in
      let (status, s') = send (codes "DELETE") url (marshal pubkey) s in (delete_error status, s')

  -- The call that `RemovePeer` makes, none without an endpoint. `ddns_url` is the URL of the
  -- configuration, none if NewEtcdClient gets no configuration of the API.
  unfoldable pub ddns_call : Option Bytes → Option (Bytes → S → Bool × S)
  unfolding call_ddns_delete
  ddns_call none = none
  ddns_call (some ddns_endpoint) =
      if ddns_endpoint ≟ []
      then none
      else some (λ pubkey s.
        let (error, s') = call_ddns_delete ddns_endpoint pubkey s in (is_nil error, s'))
