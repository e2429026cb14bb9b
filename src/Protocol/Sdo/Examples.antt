-- ===== src/Protocol/Sdo/Examples.antt =====
-- The theorems on SDO requests and replies at the register of a feedback period.
use roboparty_dexhand.Base.{◌≡◌, some, arith}
use roboparty_dexhand.Protocol.Sdo.{decode_sdo_reply}
use roboparty_dexhand.Protocol.Sdo.Laws.{reply_bytes, decode_sdo_reply-bytes}

decode_sdo_reply-bytes_example :
    decode_sdo_reply (some (reply_bytes 0x4b 0x201d 0x14 0x70005))
    ≡ some (record { command = 0x4b; index = 0x201d; subindex = 0x14; value = 5 })
decode_sdo_reply-bytes_example =
    decode_sdo_reply-bytes 0x4b 0x201d 0x14 0x70005 (omega arith) (omega arith)
