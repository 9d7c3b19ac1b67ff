-- ===== src/Llms/Sse/Tests.antt =====
-- Runs of the decoder.
use swain.Common.{none, some, [], ◌∷◌, ◌≡◌, refl}
use swain.Llms.Sse.{feed, decode, consume_line, make_decoder, split_line}
use swain.Llms.Sse.Laws.{ends_cr, then_feed, feed-append, feed-drained}

decode_two :
    decode "event: a\ndata: x\ndata:y\n\n: no\r\ndata: z"
    ≡ record { event = some "a"; data_text = "x\ny" }
      ∷ record { event = none; data_text = "z" }
      ∷ []
unfolding decode consume_line
decode_two = refl

-- A line end of two characters that is split between chunks counts twice.
feed_split :
    (feed "\n" (feed "data: x\r" make_decoder).1).0 ≡ record { event = none; data_text = "x" } ∷ []
unfolding feed consume_line
feed_split = refl

feed_whole : (feed "data: x\r\n" make_decoder).0 ≡ []
unfolding feed consume_line
feed_whole = refl

feed-append_example :
    feed "data: x\n\ndat" make_decoder ≡ then_feed "\n\ndat" (feed "data: x" make_decoder)
unfolding ends_cr
feed-append_example = feed-append "data: x" "\n\ndat" make_decoder refl

feed-drained_example : split_line (feed "a\r\n\rb" make_decoder).1.buffer ≡ none
feed-drained_example = feed-drained "a\r\n\rb" make_decoder
