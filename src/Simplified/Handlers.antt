-- ===== src/Simplified/Handlers.antt =====
-- The event handlers that a description may bring: simplified/dr.go and simplified/lookup.go call
-- them in the same way.
use lc_extension.Base.{◌==◌, not, Option, none, some, if◌then◌else◌}
use lc_extension.Common.Messages.{Response}
use lc_extension.Core.Extension.{Handler, EventCallbackParams}

-- An answer without error is passed over for what follows.
unfoldable pub continue : {W : Type 0} → Response → Response × W → Response × W
continue next (r, w) = if not (r.error == "") then (r, w) else (next, w)

module _ {W Org : Type 0} where
  -- The handler of the description, if there is one
  unfoldable pub handled :
      Response → Option (Handler W Org) → EventCallbackParams Org → W → Response × W
  handled next none params w = (next, w)
  handled next (some h) params w = continue next (h params w)
