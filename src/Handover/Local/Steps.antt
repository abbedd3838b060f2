-- ===== src/Handover/Local/Steps.antt =====
-- Every input of a process, and what it keeps.
use uns_kit.Kit.{◌≡◌, refl, ap, false}
use uns_kit.HandoverState.{Codec}
use uns_kit.Handover.{SourceExit, staying, draining, exited, Manager}
use uns_kit.Handover.Handle.{
  Input, arrives, timeout, activation, due, retry, reviewed, prepared, fin_tick, cursors, activates,
  drained, react, react_unless, step,
}
use uns_kit.Handover.Local.{Local, Kept, is_exited}
use uns_kit.Handover.Local.Sends.{Rest-Kept, Rest-same}
use uns_kit.Handover.Local.Timers.{
  active_timeout-Rest, activation_done-Rest, request_due-Rest, request_retry-Rest,
}
use uns_kit.Handover.Local.Gives.{
  review_done-Kept, source_prepared-Rest, fin_retry-Rest, source_drained-Rest,
}
use uns_kit.Handover.Local.Takes.{cursors_prepared-Kept, target_activated-Kept}
use uns_kit.Handover.Local.Arrivals.{handle_message-Kept}

react-Kept :
    (codec : Codec) (i : Input) (m : Manager)
    → is_exited m.source_exit ≡ false
    → Local m
    → Kept i m (react codec i m)
react-Kept codec (arrives e exported) m alive h = handle_message-Kept codec exported e m alive h
react-Kept codec timeout m alive h = Rest-Kept _ m _ (active_timeout-Rest m h)
react-Kept codec (activation r) m alive h = Rest-Kept _ m _ (activation_done-Rest m r h)
react-Kept codec (due offer) m alive h = Rest-Kept _ m _ (request_due-Rest m offer h)
react-Kept codec (retry offer) m alive h = Rest-Kept _ m _ (request_retry-Rest m offer h)
react-Kept codec (reviewed answers) m alive h = review_done-Kept _ answers m h
react-Kept codec (prepared p) m alive h = Rest-Kept _ m _ (source_prepared-Rest codec m p h)
react-Kept codec fin_tick m alive h = Rest-Kept _ m _ (fin_retry-Rest m h)
react-Kept codec (cursors r) m alive h = cursors_prepared-Kept _ m r h
react-Kept codec (activates a) m alive h = target_activated-Kept _ m a h
react-Kept codec (drained end) m alive h = Rest-Kept _ m _ (source_drained-Rest m end h)

react_unless-Kept :
    (codec : Codec) (i : Input) (m : Manager) (e : SourceExit)
    → m.source_exit ≡ e
    → Local m
    → Kept i m (react_unless e codec i m)
react_unless-Kept codec i m (exited status) same h = Rest-Kept i m m (Rest-same m h)
react_unless-Kept codec i m staying same h = react-Kept codec i m (ap is_exited same) h
react_unless-Kept codec i m draining same h = react-Kept codec i m (ap is_exited same) h

-- Every input of a process that is stateful, is never started by force, has no activation pending, and has an
-- identifier or has once been active, keeps what holds of it (`Local`) and its identifier. Its part stays, or it
-- moves: from waiting to taking over, when a fin under its identifier arrives; from there back to waiting, to owning
-- or to failure; from owning to having given away.
pub step-Kept : (codec : Codec) (i : Input) (m : Manager) → Local m → Kept i m (step codec i m)
unfolding step
step-Kept codec i m h = react_unless-Kept codec i m m.source_exit refl h
