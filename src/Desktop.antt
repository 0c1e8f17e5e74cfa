-- ===== src/Desktop.antt =====
-- core/brain.py and main.py: the program on one's own machine, with one tenant, one user and no
-- authentication. Brain has the turns, Turns what they keep, Console the commands.
pub mod Brain
pub mod Turns
pub mod Console
