-- ===== src/Protocol/Detector.antt =====
-- protocol/detector/src/protocol_detector.{hpp,cpp}
pub mod FirstLine
use in_memory_object_storage.Common.{ℕ, Option, none, some, take, Outcome, ok, ◌>>=◌, or_undefined}
use in_memory_object_storage.Common.Text.{Bytes, codes}
use in_memory_object_storage.Utils.Split.{find}

pub data AppLayerProtocol : Type 0 where
  http ftp : AppLayerProtocol

abbrev pub protocol_at : Option ℕ → AppLayerProtocol
protocol_at none = ftp
protocol_at (some i) = http

-- With no end of line the view has length npos and reaches past the buffer.
unfoldable pub detect_protocol : Bytes → Outcome AppLayerProtocol
detect_protocol buffer = do
  end_of_line ← or_undefined (find (codes "\r\n") buffer)
  ok (protocol_at (find (codes "HTTP") (take end_of_line buffer)))
