-- ===== src/Server/Storage/Ttl.antt =====
-- The default lifetime.
use super_voice.Base.{◌≡◌, some, List, arith}
use super_voice.Base.Int.{ℤ}
use super_voice.Server.Disk.{SaveCalls}
use super_voice.Server.Storage.{Storage, update_ttl}

pub update_ttl-default :
    (ttl : ℤ) (s t : Storage) (calls : List SaveCalls)
    → update_ttl ttl calls s ≡ some t
    → t.default_ttl ≡ ttl
unfolding update_ttl
update_ttl-default ttl s t calls e = ground arith
