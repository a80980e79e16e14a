-- ===== src/Xray/Links/Safety.antt =====
-- No link of a revoked user stays open, as long as no user is added while a dispatch of the user is
-- under way.
use v2bx_outbound.Xray.Links.{System, Step, Reach, clears, here, next}
use v2bx_outbound.Xray.Links.Invariant.{IsQuiet}

-- AddUsers finds no dispatch of its user under way.
abbrev pub IsCalmStep : {s t : System} → Step s t → Type 0
IsCalmStep {s} (clears email _ _) = IsQuiet email s
IsCalmStep _ = Unit

abbrev pub IsCalm : {s : System} → Reach s → Type 0
IsCalm here = Unit
IsCalm (next r st) = IsCalm r × IsCalmStep st
