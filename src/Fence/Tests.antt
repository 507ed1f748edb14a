-- ===== src/Fence/Tests.antt =====
-- agents/base.py: `_strip_json_fence` on replies as models write them.
use mathodology.Prelude.{◌≡◌, refl}
use mathodology.Text.{text, strip, lstrip, rstrip}
use mathodology.Fence.{strip_json_fence}
use mathodology.Fence.RoundTrip.{fenced, strip_json_fence-fenced}

fenced_reply : strip_json_fence (text "```json\n{}\n```\n") ≡ text "{}"
unfolding strip_json_fence strip lstrip rstrip
fenced_reply = refl

bare_reply : strip_json_fence (text " {} ") ≡ text "{}"
unfolding strip_json_fence strip lstrip rstrip
bare_reply = refl

strip_json_fence-fenced_example :
    strip_json_fence (fenced (text "json") (text " {\"a\": \"```\"} "))
    ≡ strip (text " {\"a\": \"```\"} ")
strip_json_fence-fenced_example =
    strip_json_fence-fenced (text "json") (text " {\"a\": \"```\"} ")
      (refl, (refl, (refl, (refl, tt))))
