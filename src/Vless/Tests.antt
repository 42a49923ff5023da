-- ===== src/Vless/Tests.antt =====
-- The streams of VLESS at concrete inputs.
use aurora_vpn.Prelude.{
  ℕ, ◌+◌, ◌≡◌, refl, true, false, none, some, List, [], ◌∷◌, ◌++◌, arith, take, drop, replicate,
  nat_eq, list_eq, pair_eq,
}
use aurora_vpn.Vless.{header, new_unpad, block, block_finished, feed, opened, feed_loop}
use aurora_vpn.Vless.Feed.{feed_loop-run, feeds}
use aurora_vpn.Vless.Pieces.{run}
use aurora_vpn.Vless.Blocks.{between, blocks, feeds-blocks}
use aurora_vpn.Vless.Vision.{new_filter, observe, Writer, pad_write, parts, write_part}
use aurora_vpn.Vless.Vision.Writes.{Wrote, pad_write-Wrote}
use aurora_vpn.Vless.Response.Polls.{polls, new_skip, polls_body, polls_version}

abbrev id : List ℕ
id = 1 ∷ 2 ∷ 3 ∷ 4 ∷ 5 ∷ 6 ∷ 7 ∷ 8 ∷ 9 ∷ 10 ∷ 11 ∷ 12 ∷ 13 ∷ 14 ∷ 15 ∷ 16 ∷ []

abbrev stream : List ℕ
stream = id ++ (blocks ((97 ∷ 98 ∷ [], 2) ∷ []) ++ (block 1 (99 ∷ []) 1 ++ (100 ∷ [])))

feeds-blocks_example :
    (feeds (take 22 stream ∷ (take 4 (drop 22 stream) ∷ (drop 26 stream ∷ []))) (new_unpad id)).1
    ≡ 97 ∷ 98 ∷ 99 ∷ 100 ∷ []
feeds-blocks_example =
    feeds-blocks id (take 22 stream) (take 4 (drop 22 stream) ∷ (drop 26 stream ∷ []))
      ((97 ∷ 98 ∷ [], 2) ∷ []) (99 ∷ []) 1 (100 ∷ []) refl (omega arith)
      ((omega arith, omega arith), tt) (omega arith, omega arith) refl

feed_loop-run_example :
    feed_loop 21 (drop 16 stream) (between id 0) ≡ run (drop 16 stream) (between id 0)
feed_loop-run_example = feed_loop-run 21 (drop 16 stream) (between id 0) (omega arith) (omega arith)

abbrev draws : ℕ → ℕ
draws n = n + 3

abbrev writer : Writer
writer = record {
  uuid = id;
  write_uuid = true;
  filter = record new_filter { is_tls = true; is_tls12_or_above = true; enable_xtls = true };
  is_padding = true;
  direct_write = false;
  out = [];
  raw_tail = [];
  frames = 0;
}

abbrev record_bytes : List ℕ
record_bytes = 23 ∷ 3 ∷ 3 ∷ 0 ∷ 2 ∷ 8 ∷ 9 ∷ []

pad_write-Wrote_example : Wrote record_bytes writer (pad_write draws record_bytes writer)
pad_write-Wrote_example = pad_write-Wrote draws record_bytes writer refl refl (omega arith)

turned_direct : (pad_write draws record_bytes writer).direct_write ≡ true
unfolding pad_write parts write_part
turned_direct = refl

polls_body_example :
    polls 3 ((0 ∷ []) ∷ (2 ∷ 5 ∷ []) ∷ (6 ∷ 97 ∷ []) ∷ []) new_skip ≡ some (97 ∷ [])
polls_body_example =
    polls_body ((0 ∷ []) ∷ (2 ∷ 5 ∷ []) ∷ (6 ∷ 97 ∷ []) ∷ []) (5 ∷ 6 ∷ []) (97 ∷ [])
      (omega arith, (omega arith, (omega arith, tt))) (omega arith) refl

polls_version_example : polls 2 ((1 ∷ []) ∷ (0 ∷ []) ∷ []) new_skip ≡ none
polls_version_example =
    polls_version ((1 ∷ []) ∷ (0 ∷ []) ∷ []) 1 (0 ∷ []) (omega arith, (omega arith, tt))
      (λ e. omega arith) refl

version_head : take 17 (header true id 3 none) ≡ 0 ∷ id
unfolding header
version_head = refl

abbrev server_hello_bytes : List ℕ
server_hello_bytes =
    (22 ∷ 3 ∷ 3 ∷ 0 ∷ 90 ∷ 2 ∷ replicate 37 0)
    ++ (32 ∷ (replicate 32 0 ++ (19 ∷ 1 ∷ 0 ∷ 0 ∷ 6 ∷ 0 ∷ 43 ∷ 0 ∷ 2 ∷ 3 ∷ 4 ∷ [])))

-- The program's own test of the filter.
recognised : (observe server_hello_bytes new_filter).enable_xtls ≡ true
unfolding observe
recognised = refl

passed_through : (feed (replicate 40 1) (new_unpad (replicate 16 7))).1 ≡ replicate 40 1
unfolding feed
passed_through = refl

unfinished : block_finished (opened (new_unpad id) (0 ∷ 0 ∷ [])) ≡ false
unfolding opened
unfinished = refl
