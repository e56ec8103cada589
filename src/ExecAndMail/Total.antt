-- ===== src/ExecAndMail/Total.antt =====
-- Whatever the servers do, every mail comes to an end.
use sntools.Base.{◌≡◌, ◌⊎◌, true, false, [], pos, negsuc, Bytes}
use sntools.Smtp.Decode.{is_clean}
use sntools.ExecAndMail.Session.{Dialogue, ok, failed, overflow}
use sntools.ExecAndMail.Mails.{Session}

abbrev IsDefined : {A : Type 0} → Dialogue A → Type 0
IsDefined (ok _ _) = Unit
IsDefined (failed _) = Unit
IsDefined overflow = ⊥

-- 7 bits, each CR before an LF, and no dot right before a CR LF.
abbrev pub IsCleanLine : Bytes → Type 0
IsCleanLine line = is_clean line ≡ true

-- A session that was held to its end, one that failed, and a server that was not reached.
abbrev pub Outcome : Session → Type 0
Outcome (status, s) =
    ((status ≡ pos 0) × (s.closed ≡ true))
    ⊎ (((status ≡ negsuc 0) × (s.closed ≡ false))
        ⊎ ((status ≡ pos 0) × (s.written ≡ []) × (s.closed ≡ false)))
