-- ===== src/Ctl/Address.antt =====
-- valonctl/pkg/client/etcd.go, incrementIP: the bytes of an address are incremented from the end.
pub mod Value
use valon.Prelude.{◌+◌, ◌%◌, ◌^◌, Bool, true, false, [], ◌∷◌, Bytes, if◌then◌else◌, ◌==◌}

-- The flag says that the loop has not met its `break`.
unfoldable pub increment_loop : Bytes → Bool × Bytes
increment_loop [] = (true, [])
increment_loop (b ∷ ip) =
    let (goes_on, rest) = increment_loop ip in
    let next = (b + 1) % 2 ^ 8 in if goes_on then (next == 0, next ∷ rest) else (false, b ∷ rest)

unfoldable pub increment_ip : Bytes → Bytes
unfolding increment_loop
increment_ip ip = (increment_loop ip).1
