-- ===== src/Sensors.antt =====
-- The supervisor's sensor polling and its SPI register server (supervisor/IBCRegisterReader.h and .cpp,
-- supervisor/TempSensorReader.h and .cpp, PollIBCSensors of supervisor/supervisor.cpp,
-- supervisor/SupervisorSPIServer.cpp).
pub mod Reader
pub mod Poll
pub mod Server
mod Tests
