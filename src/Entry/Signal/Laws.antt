-- ===== src/Entry/Signal/Laws.antt =====
-- The broker's comment: its length, and the alias-free timeframe.
use scalp_tn_aaa.Base.{◌≤◌, ◌≡◌, refl, ◌++◌, take, length, length-append, length-take_le, arith}
use scalp_tn_aaa.Base.Text.{Text}
use scalp_tn_aaa.Entry.Signal.{entry_signal_comment, entry_signal_tag, broker_comment_limit}

module _ (digest : Text → Text) (digest_length : (s : Text) → length (digest s) ≡ 10) where
  -- For any base comment the tagged comment fits in the broker's 32 characters, and it ends in the
  -- whole signal tag: only the base comment is cut.
  pub entry_signal_comment_fits :
      (base signal_id : Text)
      → (length (entry_signal_comment digest base signal_id) ≤ broker_comment_limit)
        × (entry_signal_comment digest base signal_id
            ≡ take 19 base ++ entry_signal_tag digest signal_id)
  unfolding entry_signal_comment entry_signal_tag
  entry_signal_comment_fits base signal_id = rw (digest_length signal_id) (
    omega (
      arith,
      length-append {0} (take 19 base) (entry_signal_tag digest signal_id),
      length-take_le {0} 19 base,
      digest_length signal_id,
    ),
    refl,
  )
