-- ===== src/Tests/Buffers.antt =====
-- The FIXML writer with a buffer of its own, on the message of two fields of `Contexts`.
use libfixc.Base.{◌+◌, ◌^◌, ◌≡◌, ◌≤◌, ◌<◌, arith, some, ◌++◌, Bytes, length}
use libfixc.Writer.Nested.{Nested, shown}
use libfixc.Writer.Ends.{head, foot}
use libfixc.Writer.Resize.{estimate, Rndr, rndr_body, IsSize}
use libfixc.Writer.Resized.{rndr_body-Nested}
use libfixc.Tests.Contexts.{small, rank, placed, small-IsTree, placed-IsPrintable}

rndr_body-Nested_example :
    (body : Bytes) × Nested small placed.pr (shown small placed.flds) body
    × (length (head placed ++ body ++ foot placed) + 2 ≤ estimate placed
        → estimate placed < 2 ^ 59
        → (r : Rndr) × (rndr_body small placed ≡ some r)
          × (r.str ≡ head placed ++ body ++ foot placed)
          × (r.len ≡ length (head placed ++ body ++ foot placed))
          × IsSize (estimate placed) r.z)
rndr_body-Nested_example =
    rndr_body-Nested small rank placed small-IsTree placed-IsPrintable (omega arith)
